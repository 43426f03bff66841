-- ===== src/Flow/Mission/Joins.antt =====
-- How the sinks and sources of successive pipelines get their queues.
use pipeline_tools.Prelude.{
  ℕ, ◌+◌, ◌≡◌, refl, Bool, true, false, none, some, List, [], ◌∷◌, ◌++◌, length, arith,
  if◌then◌else◌,
}
use pipeline_tools.Prelude.Outcome.{
  done, thrown, bad_any_cast, Returns, Returns-bind, pure, ◌>>=◌, ◌>>◌,
}
use pipeline_tools.Flow.Any.{TypeId, plain, vector, same_type}
use pipeline_tools.Flow.Mission.{QueueWrapper, Mission, M, take_unused, get_or_create_queue}

abbrev wrapper : ℕ → TypeId → Bool → QueueWrapper
wrapper q t u = record { queue = q; element = t; used = u }

take_unused-append :
    (ws : List QueueWrapper) (q : ℕ) (t : TypeId)
    → take_unused (ws ++ wrapper q t false ∷ [])
      ≡ some (wrapper q t false, ws ++ wrapper q t true ∷ [])
unfolding take_unused
take_unused-append [] q t = refl
take_unused-append (w ∷ []) q t = refl
take_unused-append (w ∷ v ∷ ws) q t = rw (take_unused-append (v ∷ ws) q t) refl

take_unused-used :
    (ws : List QueueWrapper) (q : ℕ) (t : TypeId) → take_unused (ws ++ wrapper q t true ∷ []) ≡ none
unfolding take_unused
take_unused-used [] q t = refl
take_unused-used (w ∷ []) q t = refl
take_unused-used (w ∷ v ∷ ws) q t = rw (take_unused-used (v ∷ ws) q t) refl

length-add : (ws : List QueueWrapper) (w : QueueWrapper) → length (ws ++ w ∷ []) ≡ length ws + 1
length-add [] w = refl
length-add (v ∷ ws) w = omega (arith, length-add ws w)

same_type_refl : (t : TypeId) → same_type t t ≡ true
same_type_refl (plain t) = ground arith
same_type_refl (vector t) = ground arith

-- The mission with one more queue.
abbrev with_queue : ℕ → TypeId → Bool → Mission → Mission
with_queue q t u m = record m { queues = m.queues ++ wrapper q t u ∷ [] }

get-creates :
    (t : TypeId) (m : Mission)
    → take_unused m.queues ≡ none
    → get_or_create_queue t m ≡ done (length m.queues) (with_queue (length m.queues) t false m)
unfolding get_or_create_queue
get-creates t m h = rw (h, get_or_create_queue) refl

get-takes :
    (q : ℕ) (s t : TypeId) (m : Mission)
    → get_or_create_queue t (with_queue q s false m) ≡ (
        if same_type s t
        then done q (with_queue q s true m)
        else thrown bad_any_cast (with_queue q s true m))
unfolding get_or_create_queue
get-takes q s t m = rw (take_unused-append m.queues q s, get_or_create_queue) refl

-- For every type in turn: the queue of a sink of one pipeline, and of the source of the next one.
unfoldable pub joins : List TypeId → M (List (ℕ × ℕ))
joins [] = pure []
joins (t ∷ ts) = do
  sink ← get_or_create_queue t
  source ← get_or_create_queue t
  rest ← joins ts
  pure ((sink, source) ∷ rest)

abbrev pub numbered : ℕ → List TypeId → List (ℕ × ℕ)
numbered n [] = []
numbered n (t ∷ ts) = (n, n) ∷ numbered (n + 1) ts

-- Where the last queue is used or there is none, all the joins return: each gets a new queue, numbered
-- in order, for its two ends, and the last queue is used or there is none again.
pub joins-numbered :
    (ts : List TypeId) (m : Mission)
    → take_unused m.queues ≡ none
    → Returns
        (λ r m'. (r ≡ numbered (length m.queues) ts) × (take_unused m'.queues ≡ none))
        (joins ts m)
unfolding joins
joins-numbered [] m h = (refl, h)
joins-numbered (t ∷ ts) m h =
    let n : ℕ = length m.queues in
    let m' : Mission = with_queue n t true m in
    rw (get-creates t m h, get-takes n t t m, same_type_refl t)
      (Returns-bind _ (joins ts m') _ (joins-numbered ts m' (take_unused-used m.queues n t))
        λ r m'' e. (rw (e.0, length-add m.queues (wrapper n t true)) refl, e.1))

-- Where the last queue is used or there is none, a sink followed by a source of another type throws,
-- and the new queue is left behind as used.
pub join-mismatch :
    (s t : TypeId) (m : Mission)
    → take_unused m.queues ≡ none
    → same_type s t ≡ false
    → (do get_or_create_queue s; get_or_create_queue t) m
      ≡ thrown bad_any_cast
          (record m { queues = m.queues ++ wrapper (length m.queues) s true ∷ [] })
join-mismatch s t m h other = rw (get-creates s m h, get-takes (length m.queues) s t m, other) refl
