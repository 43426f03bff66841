-- ===== src/Flow/Mission/Exchange/Turns.antt =====
-- What one turn of either neighbour does.
use pipeline_tools.Prelude.{
  ℕ, ◌-◌, ◌≡◌, refl, false, Option, some, List, [], ◌∷◌, length, arith, ◌==◌,
}
use pipeline_tools.Prelude.Store.{update}
use pipeline_tools.Flow.Any.{Value, type_of}
use pipeline_tools.Flow.Graph.{fanout, source, Graph}
use pipeline_tools.Flow.Execute.Chains.{Leads, Line, Line-Kept}
use pipeline_tools.Flow.Execute.Chains.Streams.{AllWork, Works-Kept}
use pipeline_tools.Flow.Pipeline.Streams.{Feeds, Gives, Round, Feeds-Kept}
use pipeline_tools.Flow.Mission.Exchange.{newest, inputs_since, reading}

-- The first pipeline, with what its source makes next.
pub record First (h : ℕ → Value → Value) (src m : ℕ) (ms : List ℕ) (g : Graph) (xs : List Value)
    : Type 0 where
  pub feeds : Feeds g src m
  pub line : Line g m ms
  pub works : AllWork h g m ms
  pub gives : Gives (g src).process (g src).calls xs

-- The second pipeline: its source, `src`, is a QueueSource.
pub record Second (h : ℕ → Value → Value) (src m : ℕ) (ms : List ℕ) (g : Graph) : Type 0 where
  pub is_source : (g src).block ≡ source
  pub copies : (g src).policy ≡ fanout
  pub next : (id : ℕ) × ((g src).next_nodes ≡ (m, id) ∷ [])
  pub fits : (g src).out_type ≡ (g m).in_type
  pub line : Line g m ms
  pub works : AllWork h g m ms

pub newest_one : (c : List Value) (old : List (List Value)) → inputs_since old (c ∷ old) ≡ c
unfolding newest
newest_one c old = let one : length (c ∷ old) - length old ≡ 1 = omega arith in rw one refl

pub First-Round :
    (h : ℕ → Value → Value) (src m : ℕ) (ms : List ℕ) (g g' : Graph) (s : ℕ) (w : Value) (x : Value)
    (xs : List Value)
    → First h src m ms g (x ∷ xs)
    → Round g src s w g'
    → First h src m ms g' xs
First-Round h src m ms g g' s w x xs f r = record {
  feeds = Feeds-Kept src m g g' r.kept f.feeds;
  line = Line-Kept g g' m ms r.kept f.line;
  works = Works-Kept g g' h m ms r.kept f.works;
  gives = rw ((r.kept src).process_kept, r.asked_once) (f.gives.1);
}

-- The graph in which the source returns what it has taken.
pub reading-calls :
    (src : ℕ) (x : Option Value) (g : Graph) (k : ℕ) → (reading src x g k).calls ≡ (g k).calls
unfolding update
reading-calls src x g k = ground arith

Leads-reading :
    (src : ℕ) (x : Option Value) (g : Graph) (m n : ℕ)
    → (g src).block ≡ source
    → Leads g m n
    → Leads (reading src x g) m n
unfolding update
Leads-reading src x g m n b l =
    let apart : (src == m) ≡ false = ground (arith, l.is_module) in
    record {
      is_module = ground (arith, l.is_module);
      copies = ground (arith, l.copies);
      next = (l.next.0, ground (arith, l.next.1));
      makes = rw apart l.makes;
      fits = ground (arith, l.fits);
    }

pub Line-reading :
    (src : ℕ) (x : Option Value) (g : Graph) (m : ℕ) (ms : List ℕ)
    → (g src).block ≡ source
    → Line g m ms
    → Line (reading src x g) m ms
unfolding update
Line-reading src x g m [] b l = ground (arith, l)
Line-reading src x g m (n ∷ ns) b l =
    (Leads-reading src x g m n b l.0, Line-reading src x g n ns b l.1)

pub AllWork-reading :
    (h : ℕ → Value → Value) (src : ℕ) (x : Option Value) (g : Graph) (m : ℕ) (ms : List ℕ)
    → (g src).block ≡ source
    → Line g m ms
    → AllWork h g m ms
    → AllWork h (reading src x g) m ms
unfolding update
AllWork-reading h src x g m [] b l w = tt
AllWork-reading h src x g m (n ∷ ns) b l w =
    let apart : (src == m) ≡ false = ground (arith, l.0.is_module) in
    (rw apart w.0, AllWork-reading h src x g n ns b l.1 w.1)

pub Feeds-reading :
    (h : ℕ → Value → Value) (src m : ℕ) (ms : List ℕ) (g : Graph) (x : Value)
    → Second h src m ms g
    → type_of x ≡ (g src).out_type
    → Feeds (reading src (some x) g) src m
unfolding update
Feeds-reading h src m ms g x f t = record {
  is_source = ground (arith, f.is_source);
  copies = ground (arith, f.copies);
  next = (f.next.0, ground (arith, f.next.1));
  makes = λ calls v e. ground (arith, t);
  fits = ground (arith, f.fits);
}

pub Second-Round :
    (h : ℕ → Value → Value) (src m : ℕ) (ms : List ℕ) (g g' : Graph) (s : ℕ) (w : Value) (x : Value)
    → Second h src m ms g
    → Round (reading src (some x) g) src s w g'
    → Second h src m ms g'
unfolding update
Second-Round h src m ms g g' s w x f r = record {
  is_source = ground (arith, f.is_source, r.kept src);
  copies = ground (arith, f.copies, r.kept src);
  next = (f.next.0, ground (arith, f.next.1, r.kept src));
  fits = ground (arith, f.fits, r.kept src, r.kept m);
  line = Line-Kept _ g' m ms r.kept (Line-reading src (some x) g m ms f.is_source f.line);
  works =
      Works-Kept _ g' h m ms r.kept
        (AllWork-reading h src (some x) g m ms f.is_source f.line f.works);
}
