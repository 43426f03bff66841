-- ===== src/Queues/Fifo.antt =====
-- What one pipeline puts into a queue, the next one takes out of it, in order.
use pipeline_tools.Prelude.{
  ◌≡◌, sym, ap, ◌∙◌, Option, none, some, List, [], ◌∷◌, ◌++◌, append-nil, append_assoc,
}
use pipeline_tools.Prelude.Outcome.{done, Returns, Returns-mono, Cmd, ◌>>=◌, ◌>>◌}
use pipeline_tools.Queues.{IQueue, std_queue, source_process, sink_process}

-- An execution of the source or of the sink; the sink's ones have the input.
pub data Use (T : Type 0) : Type 0 where
  takes : Use T
  puts : T → Use T

module _ {S T : Type 0} (queue : IQueue S T) (out : T) where
  abbrev note : List T → Option T → List T
  note got none = got
  note got (some x) = got ++ x ∷ []

  -- Any interleaving of the two; the result is what the source has produced, behind `got`.
  unfoldable pub run : List (Use T) → List T → Cmd S (List T)
  unfolding source_process sink_process
  run [] got s = done got s
  run (takes ∷ us) got s = (do r ← source_process queue out; run us (note got r)) s
  run (puts x ∷ us) got s = (do sink_process queue x; run us got) s

abbrev pub inputs : {T : Type 0} → List (Use T) → List T
inputs [] = []
inputs (takes ∷ us) = inputs us
inputs (puts x ∷ us) = x ∷ inputs us

-- However the executions of a sink and of a source on one queue are interleaved, they all return, and
-- what the source has produced, followed by what is still queued, is what was queued at the start
-- followed by all inputs of the sink: no item is lost, doubled or overtaken.
pub run-inputs :
    {T : Type 0} (out : T) (us : List (Use T)) (got queue : List T)
    → Returns
        (λ got' queue'. got' ++ queue' ≡ (got ++ queue) ++ inputs us)
        (run std_queue out us got queue)
unfolding run std_queue
run-inputs out [] got queue = sym (append-nil _)
run-inputs out (takes ∷ us) got [] = run-inputs out us got []
run-inputs out (takes ∷ us) got (x ∷ queue) =
    Returns-mono (run std_queue out us (got ++ x ∷ []) queue)
      (λ got' queue' e. e ∙ ap (λ l. l ++ inputs us) (append_assoc got (x ∷ []) queue))
      (run-inputs out us (got ++ x ∷ []) queue)
run-inputs out (puts x ∷ us) got queue =
    Returns-mono (run std_queue out us got (queue ++ x ∷ []))
      (λ got' queue' e.
        e
        ∙ ap (λ l. l ++ inputs us) (sym (append_assoc got queue (x ∷ [])))
        ∙ append_assoc (got ++ queue) (x ∷ []) (inputs us))
      (run-inputs out us got (queue ++ x ∷ []))
