-- ===== src/Flow/Execute/Chains.antt =====
-- Lines of modules, one behind the other, down to a sink.
pub mod Streams
use pipeline_tools.Prelude.{
  sym, ◌∙◌, ℕ, zero, suc, ◌+◌, ◌<◌, ◌≡◌, ◌≢◌, refl, true, false, Option, none, some, List, [], ◌∷◌,
  length, arith, ◌==◌, if◌then◌else◌, Option-cases, inl, inr,
}
use pipeline_tools.Prelude.Store.{update}
use pipeline_tools.Prelude.Outcome.{Outcome, done, thrown, bad_any_cast, Returns}
use pipeline_tools.Flow.Any.{TypeId, plain, vector, Value, item, batch, AnyLib, type_of, same_type}
use pipeline_tools.Flow.Graph.{fanout, source, module_block, sink, Graph, Flow}
use pipeline_tools.Flow.Execute.{execute, fanout_produce}
use pipeline_tools.Flow.Execute.Delivery.{deliver, sink-deliver, same_type_refl}

-- The process makes values of this type.
abbrev pub MakesType : (List (List Value) → Option Value) → TypeId → Type 0
MakesType p t = (calls : List (List Value)) (v : Value) → p calls ≡ some v → type_of v ≡ t

-- `m` is a module with one consumer, `n`, which takes what it makes.
pub record Leads (g : Graph) (m n : ℕ) : Type 0 where
  pub is_module : (g m).block ≡ module_block
  pub copies : (g m).policy ≡ fanout
  pub next : (id : ℕ) × ((g m).next_nodes ≡ (n, id) ∷ [])
  pub makes : MakesType (g m).process (g m).out_type
  pub fits : (g m).out_type ≡ (g n).in_type

-- `m`, `ms` are objects one behind the other, the last a sink and the others modules.
abbrev pub Line : Graph → ℕ → List ℕ → Type 0
Line g s [] = (g s).block ≡ sink
Line g m (n ∷ ns) = Leads g m n × Line g n ns

-- All but the calls is as it was.
pub record Kept (g h : Graph) (k : ℕ) : Type 0 where
  pub block_kept : (h k).block ≡ (g k).block
  pub policy_kept : (h k).policy ≡ (g k).policy
  pub next_kept : (h k).next_nodes ≡ (g k).next_nodes
  pub process_kept : (h k).process ≡ (g k).process
  pub in_kept : (h k).in_type ≡ (g k).in_type
  pub out_kept : (h k).out_type ≡ (g k).out_type

pub Kept-deliver : (g : Graph) (j : ℕ) (v : Value) (k : ℕ) → Kept g (deliver g j v) k
unfolding deliver update
Kept-deliver g j v k = ground arith

Leads-Kept : (g h : Graph) (m n : ℕ) → ((k : ℕ) → Kept g h k) → Leads g m n → Leads h m n
Leads-Kept g h m n w l = record {
  is_module = ground (arith, w m, l.is_module);
  copies = ground (arith, w m, l.copies);
  next = (l.next.0, ground (arith, w m, l.next.1));
  makes = rw ((w m).process_kept, (w m).out_kept) l.makes;
  fits = ground (arith, w m, w n, l.fits);
}

pub Line-Kept :
    (g h : Graph) (m : ℕ) (ms : List ℕ) → ((k : ℕ) → Kept g h k) → Line g m ms → Line h m ms
Line-Kept g h m [] w l = rw (w m).block_kept l
Line-Kept g h m (n ∷ ns) w l = (Leads-Kept g h m n w l.0, Line-Kept g h n ns w l.1)

-- What an object makes of its next input.
abbrev pub answer : Graph → ℕ → Value → Option Value
answer g m v = (g m).process ((v ∷ []) ∷ (g m).calls)

-- A module without an output hands its consumer a nullopt: a sink ignores it, the cast of a module throws.
abbrev pub cut_off : List ℕ → Graph → Outcome Graph (Unit {0})
cut_off [] g = done tt g
cut_off (n ∷ ns) g = thrown bad_any_cast g

-- The outcome for a line that is given `v`.
unfoldable pub passed : Graph → ℕ → List ℕ → Value → Outcome Graph (Unit {0})
passed g s [] v = done tt (deliver g s v)
passed g m (n ∷ ns) v = elim (answer g m v) [
  | none ↦ cut_off ns (deliver g m v)
  | some w ↦ passed (deliver g m v) n ns w
]

module _ {Any : Type 0} (lib : AnyLib Any) where
  module-some :
      (fuel m n : ℕ) (v w : Value) (id : ℕ) (g : Graph)
      → (l : Leads g m n) → type_of v ≡ (g m).in_type
      → answer g m v ≡ some w
      → execute lib (suc fuel) m (lib.wrap v) id g
        ≡ execute lib fuel n (lib.wrap w) l.next.0 (deliver g m v)
  unfolding execute fanout_produce deliver update
  module-some fuel m n v w id g l t r = ground (
    arith,
    l,
    lib.has_value-wrap w,
    lib.is_nullopt-wrap v,
    lib.cast-wrap (type_of v) v,
    same_type_refl (type_of v),
  )

  module-none :
      (fuel m n : ℕ) (v : Value) (id : ℕ) (g : Graph)
      → (l : Leads g m n) → type_of v ≡ (g m).in_type
      → answer g m v ≡ none
      → execute lib (suc fuel) m (lib.wrap v) id g
        ≡ execute lib fuel n lib.nullopt l.next.0 (deliver g m v)
  unfolding execute fanout_produce deliver update
  module-none fuel m n v id g l t r = ground (
    arith,
    l,
    lib.has_value-nullopt,
    lib.is_nullopt-wrap v,
    lib.cast-wrap (type_of v) v,
    same_type_refl (type_of v),
  )

  pub nullopt-cut_off :
      (fuel n : ℕ) (ns : List ℕ) (id : ℕ) (g : Graph)
      → Line g n ns
      → execute lib (suc fuel) n lib.nullopt id g ≡ cut_off ns g
  unfolding execute
  nullopt-cut_off fuel n [] id g l = ground (arith, lib.is_nullopt-nullopt, lib.has_value-nullopt)
  nullopt-cut_off fuel n (k ∷ ks) id g l = ground (arith, l.0, lib.cast-nullopt (g n).in_type)

  -- A line of modules that ends in a sink, given a value of its first object's input type: one object
  -- after the other processes what the one before it made, up to the sink or up to a module without an
  -- output; what follows that module ignores the nullopt if it is the sink, and throws if it is a module.
  pub line-passed :
      (fuel m : ℕ) (ms : List ℕ) (v : Value) (id : ℕ) (g : Graph)
      → length ms < fuel
      → Line g m ms
      → type_of v ≡ (g m).in_type
      → execute lib fuel m (lib.wrap v) id g ≡ passed g m ms v
  unfolding passed
  line-passed zero m ms v id g h l t = absurd (omega arith)
  line-passed (suc fuel) s [] v id g h l t = sink-deliver lib fuel s v id g l (sym t)
  line-passed (suc zero) m (n ∷ ns) v id g h l t = absurd (ground arith)
  line-passed (suc (suc fuel)) m (n ∷ ns) v id g h l t =
      let kept = Line-Kept g (deliver g m v) n ns (Kept-deliver g m v) l.1 in
      elim (Option-cases (answer g m v)) [
        | inl e ↦
            rw (module-none (suc fuel) m n v id g l.0 t e, passed, e)
              (nullopt-cut_off fuel n ns _ (deliver g m v) kept)
        | inr (w, e) ↦
            rw (module-some (suc fuel) m n v w id g l.0 t e, passed, e)
              (line-passed (suc fuel) n ns w _ (deliver g m v) (ground arith) kept
                (l.0.makes _ w e ∙ l.0.fits ∙ sym (Kept-deliver g m v n).in_kept))
      ]
