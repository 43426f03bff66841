-- ===== src/Memory/Shared/Concurrent/Tests.antt =====
-- The theorems on shared buffers among threads, where two threads give up a block at the same time.
use pipeline_tools.Prelude.{◌∷◌, ℕ, ◌+◌, ◌≤◌, ◌<◌, ◌≡◌, ◌⊎◌, refl, none, some, arith, []}
use pipeline_tools.Prelude.Store.{update, tally}
use pipeline_tools.Prelude.Outcome.{Outcome, done, Returns}
use pipeline_tools.Memory.Buffer.{host}
use pipeline_tools.Memory.Shared.Counting.{ref_of}
use pipeline_tools.Memory.Shared.Concurrent.{
  System, var, init, begin, advance, advance_at, reads, Call, constructs, copy_constructs, resets,
  calls, advances, Reach, start, later, idle,
}
use pipeline_tools.Memory.Shared.Concurrent.Counted.{own, to_end, to_delete, weigh}
use pipeline_tools.Memory.Shared.Concurrent.Safety.{
  Reach-counts, advance-Reach, end_alone, all_ended,
}
use pipeline_tools.Memory.Shared.Concurrent.WaitFree.{rank, Step-nearer}

abbrev landed : Outcome System (Unit {0}) → System
landed (done _ s) = s
landed _ = init

unfoldable moved : ℕ → System → System
unfolding advance advance_at
moved i s = landed (advance i s)

-- The first variable makes a block at address 7, the second copies it, and both are reset.
abbrev made : Call
made = constructs 7 9 3 (some 4) host

unfoldable shared : System
unfolding begin moved
shared = moved 1 (begin 1 (copy_constructs 0) (begin 0 made init))

unfoldable both_drop : System
unfolding begin shared
both_drop = begin 1 resets (begin 0 resets shared)

-- The first has lowered the count from 2, the second from 1.
unfoldable last_owner : System
unfolding both_drop moved
last_owner = moved 1 (moved 0 both_drop)

unfoldable finished : System
unfolding last_owner moved
finished = moved 1 (moved 1 (moved 1 (moved 0 last_owner)))

reach_one : Reach 2 (begin 0 made init)
unfolding reads begin
reach_one =
    later start
      (calls 0 made (omega arith) (record { quiet = refl; unread = λ k. refl }, refl, refl))

reach_copy : Reach 2 (begin 1 (copy_constructs 0) (begin 0 made init))
unfolding reads begin update
reach_copy = later reach_one (
    calls 1 (copy_constructs 0) (omega arith)
      (record { quiet = refl; unread = λ k. ground arith }, refl, omega arith, omega arith, refl))

reach_shared : Reach 2 shared
unfolding shared begin update moved advance advance_at
reach_shared = later reach_copy (advances 1 (omega arith) tt refl)

reach_both : Reach 2 both_drop
unfolding reads both_drop shared begin update moved advance advance_at
reach_both =
    later
      (later reach_shared
        (calls 0 resets (omega arith) (record { quiet = refl; unread = λ k. ground arith })))
      (calls 1 resets (omega arith) (record { quiet = refl; unread = λ k. ground arith }))

reach_last : Reach 2 last_owner
unfolding last_owner both_drop shared begin update moved advance advance_at
reach_last =
    later (later reach_both (advances 0 (omega arith) tt refl)) (advances 1 (omega arith) tt refl)

reach_finished : Reach 2 finished
unfolding finished last_owner both_drop shared begin update moved advance advance_at
reach_finished =
    later
      (later
        (later (later reach_last (advances 0 (omega arith) tt refl))
          (advances 1 (omega arith) tt refl))
        (advances 1 (omega arith) tt refl))
      (advances 1 (omega arith) tt refl)

-- The deleter ran once, with the second variable's reset.
finished_once :
    finished.ended ≡ (7, record { ptr = 9; count = 3; deleter = some 4; location = host }) ∷ []
unfolding finished last_owner both_drop shared begin update moved advance advance_at
finished_once = refl

Reach-counts_example : ref_of (shared.heap 7) ≡ tally 2 (own 7) shared.vars
Reach-counts_example = Reach-counts 2 (omega arith) shared reach_shared 7

advance-Reach_example : Returns (λ _ t. Reach 2 t) (advance 0 both_drop)
unfolding both_drop shared begin update moved advance advance_at
advance-Reach_example = advance-Reach 2 (omega arith) both_drop reach_both 0 (omega arith) tt

end_alone_example :
    (own 7 (last_owner.vars 1) ≡ 0)
    × (own 7 (last_owner.vars 0) ≡ 0)
    × (to_end 7 (last_owner.vars 0) ≡ 0)
    × (to_delete 7 (last_owner.vars 0) ≡ 0)
unfolding last_owner both_drop shared begin update moved advance advance_at
end_alone_example =
    end_alone 2 (omega arith) last_owner reach_last 1 0 7 (omega arith) (omega arith) (omega arith)
      (omega arith)

all_empty : (k : ℕ) → k < 2 → finished.vars k ≡ var none idle
unfolding finished last_owner both_drop shared begin update moved advance advance_at
all_empty k h = ground arith

all_ended_example :
    (finished.heap 7 ≡ none)
    × (weigh (λ r. r.ptr) 7 finished.made
        ≡ weigh (λ r. r.ptr) 7 finished.ended + weigh (λ r. r.ptr) 7 finished.given)
all_ended_example = all_ended 2 (λ r. r.ptr) finished 7 (omega arith) reach_finished all_empty

Step-nearer_example :
    ((last_owner.vars 1 ≡ (moved 0 both_drop).vars 1)
      ⊎ (rank (last_owner.vars 1).pc < rank ((moved 0 both_drop).vars 1).pc))
    × (rank ((moved 0 both_drop).vars 1).pc ≤ 5)
unfolding last_owner both_drop shared begin update moved advance advance_at
Step-nearer_example =
    Step-nearer 2 (moved 0 both_drop) last_owner 1 (advances 1 (omega arith) tt refl)
      (λ e. ground arith)
