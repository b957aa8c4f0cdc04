-- ===== src/Logger/Async.antt =====
-- logger/logger.go: the channel of an asynchronous logger, and the goroutine that reads it.
use mathlib.Core.Path.{subst}
use vermouth.Logger.{sends, async, Message, Logger, take_flush, write_msg, take_message}
use vermouth.Prelude.{
  ℕ, refl, sym, ap, inl, inr, true, false, none, some, List, [], append-nil, Bool-cases, length,
  ◌≡◌, ◌∙◌, ◌++◌, nat_eq, str_eq,
}
use vermouth.Logger.Steps.{
  Run, given_all, InOrder, some-injective, write_msg-sending, stop-InOrder, run-InOrder, start,
  send, take, stop,
}

async-InOrder :
    (capacity : ℕ) (l : Logger)
    → l.written ≡ []
    → l.wg ≡ 0
    → InOrder l.outputs [] (async capacity l)
unfolding async
async-InOrder capacity l new idle = record {
  asynchronous = refl;
  outputs = refl;
  done = [];
  split = refl;
  given = new;
  counted = idle;
}

-- A logger that has written nothing and that nobody waits for, made asynchronous with a channel of
-- any capacity: however the senders, the goroutine and Flush take turns, the outputs have been given
-- a first part of the messages that were sent, each message once, in the order of sending and only
-- to the outputs of its level or a lower one, and the channel holds the others.
pub async-Run :
    (capacity : ℕ) (l m : Logger) (sent : List Message)
    → l.written ≡ []
    → l.wg ≡ 0
    → Run (async capacity l) sent m
    → InOrder l.outputs sent m
async-Run capacity l m sent new idle r =
    run-InOrder (async capacity l) m l.outputs sent (async-InOrder capacity l new idle) r

take_message-idle : (l : Logger) → l.writing ≡ false → take_message l ≡ none
unfolding take_message
take_message-idle l h = rw (h, take_message) refl

take_flush-idle : (l : Logger) → l.writing ≡ false → take_flush l ≡ none
unfolding take_flush
take_flush-idle l h = rw (h, take_flush) refl

-- A message that goes into the channel, or does not fit.
send-same :
    (l l' : Logger) (msg : Message)
    → l.synchronous ≡ false
    → write_msg msg l ≡ some l'
    → (l'.written ≡ l.written) × (l'.writing ≡ l.writing) × (l'.synchronous ≡ l.synchronous)
send-same l l' msg h e = elim (Bool-cases (sends l)) [
  | inl room ↦
      (let q = some-injective (sym (write_msg-sending msg l true h room) ∙ e) in
        subst
          (λ l'.
            (l'.written ≡ l.written) × (l'.writing ≡ l.writing) × (l'.synchronous ≡ l.synchronous))
          q (refl, refl, refl))
  | inr full ↦ (let q = sym (write_msg-sending msg l false h full) ∙ e in cc)
]

-- No step writes when the goroutine has ended.
stopped-Run :
    (l m : Logger) (sent : List Message)
    → l.synchronous ≡ false
    → l.writing ≡ false
    → Run l sent m
    → (m.written ≡ l.written) × (m.writing ≡ false) × (m.synchronous ≡ false)
stopped-Run l m sent s w (start _) = (refl, w, s)
stopped-Run l m sent s w (send {mid} {before} msg r e) =
    let (same, off, still) = stopped-Run l mid before s w r in
    let (a, b, c) = send-same mid m msg still e in (a ∙ same, b ∙ off, c ∙ still)
stopped-Run l m sent s w (take {mid} r e) =
    let (same, off, still) = stopped-Run l mid sent s w r in let q = take_message-idle mid off in cc
stopped-Run l m sent s w (stop {mid} r e) =
    let (same, off, still) = stopped-Run l mid sent s w r in let q = take_flush-idle mid off in cc

-- When the goroutine takes the signal of Flush, every message that was sent has been given to the
-- outputs, in order, and the wait group is at zero, so that Flush returns. The goroutine has ended
-- then: whatever is sent later, nothing is given to the outputs any more, and a second Flush waits
-- for ever.
pub take_flush-Run :
    (capacity : ℕ) (l m n k : Logger) (sent later : List Message)
    → l.written ≡ []
    → l.wg ≡ 0
    → Run (async capacity l) sent m
    → take_flush m ≡ some n
    → Run n later k
    → (n.written ≡ given_all l.outputs sent)
      × (n.wg ≡ 0)
      × (k.written ≡ n.written)
      × (take_flush k ≡ none)
take_flush-Run capacity l m n k sent later new idle r e after =
    let inv = async-Run capacity l m sent new idle r in
    let (end, empty, off) = stop-InOrder l.outputs sent m n inv e in
    let (same, off', _) = stopped-Run n k later end.asynchronous off after in
    let all_done : sent ≡ end.done =
      end.split ∙ ap (λ c. end.done ++ c) empty ∙ append-nil end.done in
    (
      end.given ∙ ap (given_all l.outputs) (sym all_done),
      end.counted ∙ ap length empty,
      same,
      take_flush-idle k off',
    )
