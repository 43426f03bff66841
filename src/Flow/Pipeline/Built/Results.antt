-- ===== src/Flow/Pipeline/Built/Results.antt =====
-- What a built pipeline delivers.
use pipeline_tools.Prelude.{ℕ, suc, ◌<◌, ◌≡◌, ◌≢◌, refl, sym, ◌∙◌, List, [], ◌∷◌, ◌++◌, length}
use pipeline_tools.Prelude.Outcome.{Returns, Returns-mono, ◌>>◌}
use pipeline_tools.Flow.Any.{Value, AnyLib}
use pipeline_tools.Flow.Graph.{source, Graph, add_consumer}
use pipeline_tools.Flow.Execute.{execute}
use pipeline_tools.Flow.Execute.Chains.{Line}
use pipeline_tools.Flow.Execute.Chains.Streams.{AllWork, composed, end_of}
use pipeline_tools.Flow.Pipeline.{
  State, node_like, sink_like, add, wire, last_node, add_consumer_to_all, execute_pipeline,
}
use pipeline_tools.Flow.Pipeline.Wiring.{add_all, build, empty}
use pipeline_tools.Flow.Pipeline.Streams.{Feeds, Gives, sunk, repeat, stream}
use pipeline_tools.Flow.Pipeline.Built.{
  Relinked, Outside, Loose, Parts, linked, add_consumer-plain, Relinked-linked, Relinked-trans,
  next-linked, plain_block, Parts-other, nodes-Linked,
}

-- A source in front of the parts.
pub record Source (g : Graph) (s src m : ℕ) (ns : List ℕ) : Type 0 where
  pub is_source : (g src).block ≡ source
  pub loose : Loose g src m
  pub apart : Outside src (m ∷ ns)
  pub not_sink : src ≢ s

pub record Built (g : Graph) (s src m : ℕ) (ns : List ℕ) (t : State) : Type 0 where
  pub feeds : Feeds t.graph src m
  pub line : Line t.graph m (ns ++ s ∷ [])
  pub same : (k : ℕ) → Relinked g t.graph k
  pub one_source : t.pipeline.sources ≡ src ∷ []

wire-source :
    (src m : ℕ) (g : Graph)
    → wire (record { sources = src ∷ []; nodes = [] }) m g ≡ add_consumer src m g
unfolding wire last_node add_consumer_to_all
wire-source src m g = refl

build-Built :
    (g : Graph) (s src m : ℕ) (ns : List ℕ)
    → Source g s src m ns
    → Parts g s m ns
    → Returns (λ _ t. Built g s src m ns t) (build (src ∷ []) (m ∷ ns) (s ∷ []) (empty g))
unfolding build add_all add last_node
build-Built g s src m ns f p =
    let g' = linked src m g in
    let st : State = record {
      graph = g';
      pipeline = record { sources = src ∷ []; nodes = m ∷ [] };
    } in
    rw (wire-source src m g ∙ add_consumer-plain src m g (plain_block g s m ns p)) (
      Returns-mono {Q = λ _ t. Built g s src m ns t}
        ((do add_all node_like ns; add_all sink_like (s ∷ [])) st)
        (λ _ t q.
          let whole =
            λ (k : ℕ). Relinked-trans g g' t.graph k (Relinked-linked src m g k) (q.same k) in
          record {
            feeds = record {
              is_source = (whole src).block_kept ∙ f.is_source;
              copies = (whole src).policy_kept ∙ f.loose.copies;
              next = (0, q.others src f.apart ∙ next-linked src m g f.loose.unlinked);
              makes = rw ((whole src).process_kept, (whole src).out_kept) f.loose.makes;
              fits = (whole src).out_kept ∙ f.loose.fits ∙ sym (whole m).in_kept;
            };
            line = q.line;
            same = whole;
            one_source = q.sources_kept;
          })
        (nodes-Linked s m ns st refl (Parts-other src m g s m ns f.not_sink f.apart p)))

end_of-append : (m : ℕ) (ns : List ℕ) (s : ℕ) → end_of m (ns ++ s ∷ []) ≡ s
end_of-append m [] s = refl
end_of-append m (n ∷ ns) s = end_of-append n ns s

AllWork-relinked :
    (h : ℕ → Value → Value) (g g' : Graph) (m : ℕ) (ns : List ℕ)
    → ((k : ℕ) → Relinked g g' k)
    → AllWork h g m ns
    → AllWork h g' m ns
AllWork-relinked h g g' m [] w l = tt
AllWork-relinked h g g' m (n ∷ ns) w l =
    (rw ((w m).process_kept, (w m).in_kept) l.0, AllWork-relinked h g g' n ns w l.1)

-- A source, modules and a sink, all different and none linked yet, each of which takes what the one
-- before it makes, and each module a function of its input: they are added to an empty pipeline in this
-- order, which succeeds, and the pipeline is executed as often as there are values that the source makes
-- next. Then the sink has been called with the composition of the modules on each of these values, once
-- for each, in their order.
pub built_stream :
    {Any : Type 0} (lib : AnyLib Any) (h : ℕ → Value → Value) (fuel s src m : ℕ) (ns : List ℕ)
    (xs : List Value) (g : Graph)
    → length (ns ++ s ∷ []) < fuel
    → Source g s src m ns
    → Parts g s m ns
    → AllWork h g m (ns ++ s ∷ [])
    → Gives (g src).process (g src).calls xs
    → Returns
        (λ _ t.
          Returns
            (λ _ g'. (g' s).calls ≡ sunk (composed h m (ns ++ s ∷ [])) xs (g s).calls)
            (repeat (length xs) (execute_pipeline lib (execute lib (suc fuel)) t.pipeline) t.graph))
        (build (src ∷ []) (m ∷ ns) (s ∷ []) (empty g))
built_stream lib h fuel s src m ns xs g deep f p w v =
    Returns-mono (build (src ∷ []) (m ∷ ns) (s ∷ []) (empty g))
      (λ _ t q. rw (← (q.same s).calls_kept) (
        rw (end_of-append m ns s) at (
          stream lib h fuel src m (ns ++ s ∷ []) deep t.pipeline xs t.graph q.one_source q.feeds
            q.line (AllWork-relinked h g t.graph m (ns ++ s ∷ []) q.same w)
            (rw ((q.same src).process_kept, (q.same src).calls_kept) v))))
      (build-Built g s src m ns f p)
