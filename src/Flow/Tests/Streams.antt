-- ===== src/Flow/Tests/Streams.antt =====
-- A pipeline that counts, adds one twice and ends in a sink, with the `any` of the other tests.
mod Exchange
use pipeline_tools.Prelude.{
  ℕ, zero, suc, ◌+◌, ◌≡◌, refl, none, some, Option, List, [], ◌∷◌, length, arith,
}
use pipeline_tools.Prelude.Outcome.{Returns}
use pipeline_tools.Flow.Any.{plain, Value, item, batch, type_of}
use pipeline_tools.Flow.Graph.{Block, source, module_block, sink, Flow, Graph}
use pipeline_tools.Flow.Execute.{execute}
use pipeline_tools.Flow.Execute.Chains.{passed, line-passed}
use pipeline_tools.Flow.Execute.Chains.Streams.{composed}
use pipeline_tools.Flow.Pipeline.{execute_pipeline}
use pipeline_tools.Flow.Pipeline.Wiring.{build, empty}
use pipeline_tools.Flow.Pipeline.Streams.{sunk, repeat}
use pipeline_tools.Flow.Pipeline.Built.{Parts}
use pipeline_tools.Flow.Pipeline.Built.Results.{Source, built_stream}
use pipeline_tools.Flow.Tests.{object, boxes}

abbrev payload : Value → ℕ
payload (item t x) = x
payload (batch t xs) = 0

abbrev plus_one : Value → Value
plus_one v = item 1 (payload v + 1)

abbrev counts : List (List Value) → Option Value
counts calls = some (item 1 (length calls))

abbrev adds : List (List Value) → Option Value
adds ((v ∷ []) ∷ calls) = some (plus_one v)
adds calls = some (item 1 0)

abbrev made_by : (List (List Value) → Option Value) → Block → Flow
made_by p b = record (object b none []) { process = p }

-- Objects 0 to 3, without links.
abbrev four_objects : Graph
four_objects zero = made_by counts source
four_objects (suc zero) = made_by adds module_block
four_objects (suc (suc zero)) = made_by adds module_block
four_objects (suc (suc (suc k))) = made_by adds sink

adds-type : (calls : List (List Value)) (v : Value) → adds calls ≡ some v → type_of v ≡ plain 1
adds-type calls v e = ground arith

counts-type : (calls : List (List Value)) (v : Value) → counts calls ≡ some v → type_of v ≡ plain 1
counts-type calls v e = ground arith

loose-Parts : Parts four_objects 3 1 (2 ∷ [])
loose-Parts = (
  record { copies = refl; unlinked = refl; makes = adds-type; fits = refl },
  refl,
  (λ e. ground arith),
  ((λ e. ground arith), tt),
  (
    record { copies = refl; unlinked = refl; makes = adds-type; fits = refl },
    refl,
    (λ e. ground arith),
    refl,
  ),
)

in_front : Source four_objects 3 0 1 (2 ∷ [])
in_front = record {
  is_source = refl;
  loose = record { copies = refl; unlinked = refl; makes = counts-type; fits = refl };
  apart = ((λ e. ground arith), ((λ e. ground arith), tt));
  not_sink = λ e. ground arith;
}

abbrev two_values : List Value
two_values = item 1 1 ∷ item 1 2 ∷ []

built_stream_example :
    Returns
      (λ _ t.
        Returns
          (λ _ g'. (g' 3).calls ≡ sunk (composed (λ _. plus_one) 1 (2 ∷ 3 ∷ [])) two_values [])
          (repeat 2 (execute_pipeline boxes (execute boxes 4) t.pipeline) t.graph))
      (build (0 ∷ []) (1 ∷ 2 ∷ []) (3 ∷ []) (empty four_objects))
built_stream_example =
    built_stream boxes (λ _. plus_one) 3 3 0 1 (2 ∷ []) two_values four_objects (omega arith)
      in_front loose-Parts ((λ calls v e. refl), ((λ calls v e. refl), tt)) (refl, (refl, tt))

two_sunk :
    sunk (composed (λ _. plus_one) 1 (2 ∷ 3 ∷ [])) two_values []
    ≡ (item 1 4 ∷ []) ∷ (item 1 3 ∷ []) ∷ []
unfolding sunk composed
two_sunk = refl

-- Modules 1 and 2 in front of sink 3.
abbrev in_line : Graph
in_line zero = made_by counts source
in_line (suc zero) = record (made_by adds module_block) { next_nodes = (2, 0) ∷ [] }
in_line (suc (suc zero)) = record (object module_block none []) { next_nodes = (3, 0) ∷ [] }
in_line (suc (suc (suc k))) = made_by adds sink

-- The second module has no output.
line-passed_example :
    execute boxes 3 1 (boxes.wrap (item 1 5)) 0 in_line ≡ passed in_line 1 (2 ∷ 3 ∷ []) (item 1 5)
line-passed_example =
    line-passed boxes 3 1 (2 ∷ 3 ∷ []) (item 1 5) 0 in_line (omega arith)
      (
        record {
          is_module = refl;
          copies = refl;
          next = (0, refl);
          makes = adds-type;
          fits = refl;
        },
        (
          record {
            is_module = refl;
            copies = refl;
            next = (0, refl);
            makes = λ calls v e. ground arith;
            fits = refl;
          },
          refl,
        ),
      )
      refl
