-- ===== src/Flow/Tests/Streams/Exchange.antt =====
-- Two small pipelines on a queue, each with one module.
use pipeline_tools.Prelude.{zero, suc, ◌≡◌, refl, none, [], ◌∷◌, arith}
use pipeline_tools.Prelude.Outcome.{Returns}
use pipeline_tools.Flow.Any.{plain, item}
use pipeline_tools.Flow.Graph.{source, module_block, sink, Graph}
use pipeline_tools.Flow.Execute.Chains.{cut_off}
use pipeline_tools.Flow.Execute.Delivery.{asked}
use pipeline_tools.Flow.Mission.Exchange.{Neighbours, reading, in_second, second_turn}
use pipeline_tools.Flow.Mission.Exchange.Turns.{First, Second}
use pipeline_tools.Flow.Mission.Exchange.Delivered.{
  Ends, firsts, seconds, Through, run_turns, Ready,
}
use pipeline_tools.Flow.Mission.Exchange.Interleaved.{run_turns-Through, second_turn-empty}
use pipeline_tools.Flow.Tests.{boxes}
use pipeline_tools.Flow.Tests.Streams.{plus_one, counts, adds, made_by, counts-type, adds-type}

abbrev small : Graph
small zero = record (made_by counts source) { next_nodes = (1, 0) ∷ [] }
small (suc zero) = record (made_by adds module_block) { next_nodes = (2, 0) ∷ [] }
small (suc (suc k)) = made_by adds sink

abbrev ends : Ends
ends = record {
  pipeline = record { sources = 0 ∷ []; nodes = 1 ∷ [] };
  src = 0;
  head = 1;
  rest = 2 ∷ [];
  compute = λ _. plus_one;
}

abbrev two : Neighbours
two = record { first = small; queue = []; second = small }

small-First : First (λ _. plus_one) 0 1 (2 ∷ []) small (item 1 1 ∷ item 1 2 ∷ [])
small-First = record {
  feeds = record {
    is_source = refl;
    copies = refl;
    next = (0, refl);
    makes = counts-type;
    fits = refl;
  };
  line = (
    record { is_module = refl; copies = refl; next = (0, refl); makes = adds-type; fits = refl },
    refl,
  );
  works = ((λ calls v e. refl), tt);
  gives = (refl, (refl, tt));
}

small-Second : Second (λ _. plus_one) 0 1 (2 ∷ []) small
small-Second = record {
  is_source = refl;
  copies = refl;
  next = (0, refl);
  fits = refl;
  line = (
    record { is_module = refl; copies = refl; next = (0, refl); makes = adds-type; fits = refl },
    refl,
  );
  works = ((λ calls v e. refl), tt);
}

two-Ready : Ready (plain 1) ends ends two (item 1 1 ∷ item 1 2 ∷ [])
two-Ready = record {
  giver = small-First;
  taker = small-Second;
  puts = refl;
  takes = refl;
  typed = tt;
}

run_turns-Through_example :
    Returns
      (λ _ s'. Through ends ends two (item 1 1 ∷ item 1 2 ∷ []) s')
      (run_turns boxes 3 (item 1 0) ends ends (firsts ∷ seconds ∷ firsts ∷ []) two)
run_turns-Through_example =
    run_turns-Through boxes 2 (item 1 0) (plain 1) ends ends (omega arith) (omega arith) refl refl
      (firsts ∷ seconds ∷ firsts ∷ []) (item 1 1 ∷ item 1 2 ∷ []) two two-Ready tt

second_turn-empty_example :
    second_turn boxes 2 (item 1 0) ends.pipeline 0 two
    ≡ in_second two (cut_off (2 ∷ []) (asked (reading 0 none small) 0))
second_turn-empty_example = second_turn-empty boxes 0 (item 1 0) ends two refl small-Second refl
