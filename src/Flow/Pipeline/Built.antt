-- ===== src/Flow/Pipeline/Built.antt =====
-- A pipeline that is built by `add` of a source, modules and a sink, and then executed.
pub mod Results
use pipeline_tools.Prelude.{
  ◌⊎◌, ℕ, zero, suc, ◌+◌, ◌<◌, ◌≡◌, ◌≢◌, refl, sym, ◌∙◌, true, false, Option, none, some, List, [],
  ◌∷◌, ◌++◌, length, arith, ◌==◌, if◌then◌else◌, Option-cases, inl, inr,
}
use pipeline_tools.Prelude.Store.{update}
use pipeline_tools.Prelude.Outcome.{
  Outcome, done, thrown, bad_any_cast, Returns, Returns-mono, Returns-bind, pure, ◌>>◌, ◌>>=◌,
}
use pipeline_tools.Flow.Any.{TypeId, plain, vector, Value, item, batch, AnyLib, type_of, same_type}
use pipeline_tools.Flow.Graph.{
  fanout, source, module_block, sink, Graph, Flow, add_consumer, register_producer,
}
use pipeline_tools.Flow.Execute.Chains.{Leads, Line, MakesType}
use pipeline_tools.Flow.Pipeline.{
  Pipeline, State, source_like, node_like, sink_like, add, wire, last_node, add_consumer_to_all,
}
use pipeline_tools.Flow.Pipeline.Wiring.{add_all, build, last_node-append, empty}

-- All but the links is as it was.
pub record Relinked (g h : Graph) (k : ℕ) : Type 0 where
  pub block_kept : (h k).block ≡ (g k).block
  pub policy_kept : (h k).policy ≡ (g k).policy
  pub process_kept : (h k).process ≡ (g k).process
  pub in_kept : (h k).in_type ≡ (g k).in_type
  pub out_kept : (h k).out_type ≡ (g k).out_type
  pub calls_kept : (h k).calls ≡ (g k).calls

-- The object does not stand among these.
abbrev pub Outside : ℕ → List ℕ → Type 0
Outside j [] = Unit {0}
Outside j (k ∷ ks) = (j ≢ k) × Outside j ks

-- An object without consumers yet, whose outputs the next object takes.
pub record Loose (g : Graph) (m n : ℕ) : Type 0 where
  pub copies : (g m).policy ≡ fanout
  pub unlinked : (g m).next_nodes ≡ []
  pub makes : MakesType (g m).process (g m).out_type
  pub fits : (g m).out_type ≡ (g n).in_type

-- Modules `m`, `ns` and the sink `s`, all different, none with a consumer.
abbrev pub Parts : Graph → ℕ → ℕ → List ℕ → Type 0
Parts g s m [] = Loose g m s × ((g m).block ≡ module_block) × (m ≢ s) × ((g s).block ≡ sink)
Parts g s m (n ∷ ns) =
    Loose g m n × ((g m).block ≡ module_block) × (m ≢ s) × Outside m (n ∷ ns) × Parts g s n ns

abbrev pub linked : ℕ → ℕ → Graph → Graph
linked m n g = update g m (record (g m) { next_nodes = (g m).next_nodes ++ (n, 0) ∷ [] })

pub add_consumer-plain :
    (m n : ℕ) (g : Graph)
    → ((g n).block ≡ module_block) ⊎ ((g n).block ≡ sink)
    → add_consumer m n g ≡ linked m n g
unfolding add_consumer register_producer
add_consumer-plain m n g (inl e) = rw e refl
add_consumer-plain m n g (inr e) = rw e refl

pub Relinked-linked : (m n : ℕ) (g : Graph) (k : ℕ) → Relinked g (linked m n g) k
unfolding update
Relinked-linked m n g k = ground arith

pub Relinked-trans : (g h i : Graph) (k : ℕ) → Relinked g h k → Relinked h i k → Relinked g i k
Relinked-trans g h i k v w = record {
  block_kept = w.block_kept ∙ v.block_kept;
  policy_kept = w.policy_kept ∙ v.policy_kept;
  process_kept = w.process_kept ∙ v.process_kept;
  in_kept = w.in_kept ∙ v.in_kept;
  out_kept = w.out_kept ∙ v.out_kept;
  calls_kept = w.calls_kept ∙ v.calls_kept;
}

Loose-other : (m n : ℕ) (g : Graph) (j k : ℕ) → m ≢ j → Loose g j k → Loose (linked m n g) j k
unfolding update
Loose-other m n g j k apart l = record {
  copies = ground (arith, l.copies);
  unlinked = ground (arith, l.unlinked);
  makes = rw ((Relinked-linked m n g j).process_kept, (Relinked-linked m n g j).out_kept) l.makes;
  fits = ground (arith, l.fits);
}

pub Parts-other :
    (m n : ℕ) (g : Graph) (s j : ℕ) (ks : List ℕ)
    → m ≢ s
    → Outside m (j ∷ ks)
    → Parts g s j ks
    → Parts (linked m n g) s j ks
unfolding update
Parts-other m n g s j [] ms out p =
    (Loose-other m n g j s out.0 p.0, ground (arith, p.1), p.2, ground (arith, p.3))
Parts-other m n g s j (k ∷ ks) ms out p = (
  Loose-other m n g j k out.0 p.0,
  ground (arith, p.1),
  p.2,
  p.3,
  Parts-other m n g s k ks ms out.1 p.4,
)

-- What a build makes of the graph `g`, behind `m`.
pub record Linked (g : Graph) (s m : ℕ) (ns : List ℕ) (p : Pipeline) (t : State) : Type 0 where
  pub line : Line t.graph m (ns ++ s ∷ [])
  pub same : (k : ℕ) → Relinked g t.graph k
  pub others : (j : ℕ) → Outside j (m ∷ ns) → (t.graph j).next_nodes ≡ (g j).next_nodes
  pub sources_kept : t.pipeline.sources ≡ p.sources

pub next-linked :
    (m n : ℕ) (g : Graph) → (g m).next_nodes ≡ [] → (linked m n g m).next_nodes ≡ (n, 0) ∷ []
unfolding update
next-linked m n g e = ground (arith, e)

pub other-linked :
    (m n : ℕ) (g : Graph) (j : ℕ) → j ≢ m → (linked m n g j).next_nodes ≡ (g j).next_nodes
unfolding update
other-linked m n g j apart = ground arith

leads :
    (g h : Graph) (m n : ℕ)
    → Loose g m n
    → (g m).block ≡ module_block
    → ((k : ℕ) → Relinked g h k)
    → (h m).next_nodes ≡ (n, 0) ∷ []
    → Leads h m n
leads g h m n l b w e = record {
  is_module = (w m).block_kept ∙ b;
  copies = (w m).policy_kept ∙ l.copies;
  next = (0, e);
  makes = rw ((w m).process_kept, (w m).out_kept) l.makes;
  fits = (w m).out_kept ∙ l.fits ∙ sym (w n).in_kept;
}

wire-last :
    (p : Pipeline) (m n : ℕ) (g : Graph)
    → last_node p.nodes ≡ some m
    → wire p n g ≡ add_consumer m n g
unfolding wire
wire-last p m n g e = rw (wire, e) refl

pub plain_block :
    (g : Graph) (s n : ℕ) (ns : List ℕ)
    → Parts g s n ns
    → ((g n).block ≡ module_block) ⊎ ((g n).block ≡ sink)
plain_block g s n [] p = inl p.1
plain_block g s n (k ∷ ks) p = inl p.1

pub nodes-Linked :
    (s m : ℕ) (ns : List ℕ) (st : State)
    → last_node st.pipeline.nodes ≡ some m
    → Parts st.graph s m ns
    → Returns
        (λ _ t. Linked st.graph s m ns st.pipeline t)
        ((do add_all node_like ns; add_all sink_like (s ∷ [])) st)
unfolding add_all add
nodes-Linked s m [] st last p =
    let g = st.graph in
    rw (wire-last st.pipeline m s g last ∙ add_consumer-plain m s g (inr p.3)) (record {
      line = (
        leads g (linked m s g) m s p.0 p.1 (Relinked-linked m s g) (next-linked m s g p.0.unlinked),
        (Relinked-linked m s g s).block_kept ∙ p.3,
      );
      same = Relinked-linked m s g;
      others = λ j out. other-linked m s g j out.0;
      sources_kept = refl;
    })
nodes-Linked s m (n ∷ ns) st last p =
    let g = st.graph in
    let g' = linked m n g in
    let st' : State = record {
      graph = g';
      pipeline = record st.pipeline { nodes = st.pipeline.nodes ++ n ∷ [] };
    } in
    rw (wire-last st.pipeline m n g last ∙ add_consumer-plain m n g (plain_block g s n ns p.4)) (
      Returns-mono {Q = λ _ t. Linked g s m (n ∷ ns) st.pipeline t}
        ((do add_all node_like ns; add_all sink_like (s ∷ [])) st')
        (λ _ t q.
          let whole =
            λ (k : ℕ). Relinked-trans g g' t.graph k (Relinked-linked m n g k) (q.same k) in
          record {
            line = (
              leads g t.graph m n p.0 p.1 whole (q.others m p.3 ∙ next-linked m n g p.0.unlinked),
              q.line,
            );
            same = whole;
            others = λ j out. q.others j out.1 ∙ other-linked m n g j out.0;
            sources_kept = q.sources_kept;
          })
        (nodes-Linked s n ns st' (last_node-append st.pipeline.nodes n)
          (Parts-other m n g s n ns p.2 p.3 p.4)))
