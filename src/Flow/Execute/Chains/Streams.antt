-- ===== src/Flow/Execute/Chains/Streams.antt =====
-- A source in front of a line of modules, executed again and again.
use pipeline_tools.Prelude.{ℕ, ◌≡◌, sym, ◌∙◌, some, List, [], ◌∷◌, arith}
use pipeline_tools.Prelude.Store.{update}
use pipeline_tools.Prelude.Outcome.{Returns, Returns-mono}
use pipeline_tools.Flow.Any.{Value, type_of}
use pipeline_tools.Flow.Graph.{source, module_block, sink, Graph}
use pipeline_tools.Flow.Execute.Delivery.{deliver}
use pipeline_tools.Flow.Execute.Chains.{Line, Line-Kept, Kept, Kept-deliver, passed}

-- Object `m` is a module that makes `h v` of each input `v`, whatever its inputs so far.
abbrev pub Works : (Value → Value) → Graph → ℕ → Type 0
Works h g m =
    (calls : List (List Value)) (v : Value)
    → type_of v ≡ (g m).in_type
    → (g m).process ((v ∷ []) ∷ calls) ≡ some (h v)

abbrev pub AllWork : (ℕ → Value → Value) → Graph → ℕ → List ℕ → Type 0
AllWork h g s [] = Unit {0}
AllWork h g m (n ∷ ns) = Works (h m) g m × AllWork h g n ns

-- The composition of what the modules make.
unfoldable pub composed : (ℕ → Value → Value) → ℕ → List ℕ → Value → Value
composed h s [] v = v
composed h m (n ∷ ns) v = composed h n ns (h m v)

abbrev pub end_of : ℕ → List ℕ → ℕ
end_of s [] = s
end_of m (n ∷ ns) = end_of n ns

-- Objects `m`, `ms` have handed down `v`.
pub record Handed (g : Graph) (s : ℕ) (w : Value) (h : Graph) : Type 0 where
  pub received : (h s).calls ≡ (w ∷ []) ∷ (g s).calls
  pub kept : (k : ℕ) → Kept g h k
  pub sources : (k : ℕ) → (g k).block ≡ source → (h k).calls ≡ (g k).calls

pub Works-Kept :
    (g g' : Graph) (h : ℕ → Value → Value) (m : ℕ) (ms : List ℕ)
    → ((k : ℕ) → Kept g g' k)
    → AllWork h g m ms
    → AllWork h g' m ms
Works-Kept g g' h s [] w l = tt
Works-Kept g g' h m (n ∷ ns) w l =
    (rw ((w m).process_kept, (w m).in_kept) l.0, Works-Kept g g' h n ns w l.1)

sink-Handed : (g : Graph) (s : ℕ) (v : Value) → (g s).block ≡ sink → Handed g s v (deliver g s v)
unfolding deliver update
sink-Handed g s v b = record {
  received = ground arith;
  kept = Kept-deliver g s v;
  sources = λ k q. ground (arith, b);
}

pub end-sink : (g : Graph) (m : ℕ) (ms : List ℕ) → Line g m ms → (g (end_of m ms)).block ≡ sink
end-sink g m [] l = l
end-sink g m (n ∷ ns) l = end-sink g n ns l.1

-- Behind the first module.
Handed-deliver :
    (g : Graph) (m : ℕ) (v w : Value) (s : ℕ) (h : Graph)
    → (g m).block ≡ module_block
    → (g s).block ≡ sink
    → Handed (deliver g m v) s w h
    → Handed g s w h
unfolding deliver update
Handed-deliver g m v w s h b e w' = record {
  received = ground (arith, w'.received);
  kept = λ k. ground (arith, w'.kept k);
  sources = λ k q. ground (arith, w'.sources k);
}

pub passed-Handed :
    (h : ℕ → Value → Value) (m : ℕ) (ms : List ℕ) (v : Value) (g : Graph)
    → Line g m ms
    → AllWork h g m ms
    → type_of v ≡ (g m).in_type
    → Returns (λ _ g'. Handed g (end_of m ms) (composed h m ms v) g') (passed g m ms v)
unfolding passed composed
passed-Handed h s [] v g l w t = sink-Handed g s v l
passed-Handed h m (n ∷ ns) v g l w t =
    let e = w.0 (g m).calls v t in
    let kept = Kept-deliver g m v in
    rw (passed, e)
      (Returns-mono {Q = λ _ g'. Handed g (end_of n ns) (composed h n ns (h m v)) g'}
        (passed (deliver g m v) n ns (h m v))
        (λ _ g' q. Handed-deliver g m v _ (end_of n ns) g' l.0.is_module (end-sink g n ns l.1) q)
        (passed-Handed h n ns (h m v) (deliver g m v) (Line-Kept g _ n ns kept l.1)
          (Works-Kept g _ h n ns kept w.1)
          (l.0.makes _ (h m v) e ∙ l.0.fits ∙ sym (kept n).in_kept)))
