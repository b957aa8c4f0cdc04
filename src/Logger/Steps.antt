-- ===== src/Logger/Steps.antt =====
-- logger/logger.go: the steps of an asynchronous logger, and what each does to its channel.
use mathlib.Core.Path.{subst}
use vermouth.Logger.{
  sends, flush, given, Message, write_to_outputs, Logger, drain, take_flush, write_msg, Output,
  take_message,
}
use vermouth.Prelude.{
  refl, sym, ap, inl, inr, Bool, true, false, Option, none, some, List, [], append-nil,
  append_assoc, arith, Bool-cases, length, length-append, ◌+◌, ◌-◌, ◌≡◌, ◌∙◌, ◌∷◌, ◌++◌,
  if◌then◌else◌, nat_eq, str_eq,
}

-- What senders and the goroutine do, in any order: the messages that were sent, oldest first.
pub data Run : Logger → List Message → Logger → Type 0 where
  start : (l : Logger) → Run l [] l
  send :
      {l mid next : Logger} {before : List Message} (msg : Message)
      → Run l before mid
      → write_msg msg mid ≡ some next
      → Run l (before ++ msg ∷ []) next
  take :
      {l mid next : Logger} {before : List Message}
      → Run l before mid
      → take_message mid ≡ some next
      → Run l before next
  stop :
      {l mid next : Logger} {before : List Message}
      → Run l before mid
      → take_flush mid ≡ some next
      → Run l before next

-- What outputs are given of messages, one message after the other.
abbrev pub given_all : List Output → List Message → List (Output × Message)
given_all os [] = []
given_all os (m ∷ ms) = given os m ++ given_all os ms

given_all-append :
    (os : List Output) (xs ys : List Message)
    → given_all os (xs ++ ys) ≡ given_all os xs ++ given_all os ys
given_all-append os [] ys = refl
given_all-append os (x ∷ xs) ys =
    ap (λ r. given os x ++ r) (given_all-append os xs ys)
    ∙ sym (append_assoc (given os x) (given_all os xs) (given_all os ys))

-- The channel holds the messages that were sent last, the outputs were given the others in the
-- order in which they were sent, and the wait group counts those in the channel.
pub record InOrder (os : List Output) (sent : List Message) (l : Logger) : Type 0 where
  pub asynchronous : l.synchronous ≡ false
  pub outputs : l.outputs ≡ os
  pub done : List Message
  pub split : sent ≡ done ++ l.msg_chan
  pub given : l.written ≡ given_all os done
  pub counted : l.wg ≡ length l.msg_chan

drain-given :
    (msgs : List Message) (l : Logger)
    → (drain msgs l).written ≡ l.written ++ given_all l.outputs msgs
unfolding drain write_to_outputs
drain-given [] l = sym (append-nil l.written)
drain-given (m ∷ ms) l =
    drain-given ms _ ∙ append_assoc l.written (given l.outputs m) (given_all l.outputs ms)

drain-rest :
    (msgs : List Message) (l : Logger)
    → l.wg ≡ length msgs
    → ((drain msgs l).msg_chan ≡ [])
      × ((drain msgs l).wg ≡ 0)
      × ((drain msgs l).outputs ≡ l.outputs)
      × ((drain msgs l).synchronous ≡ l.synchronous)
      × ((drain msgs l).writing ≡ l.writing)
unfolding drain write_to_outputs
drain-rest [] l h = (refl, h, refl, refl, refl)
drain-rest (m ∷ ms) l h = drain-rest ms _ (omega (arith, h))

pub some-injective {ℓ} : {A : Type ℓ} {a b : A} → some a ≡ some b → a ≡ b
some-injective h = cc

-- writeMsg as a function of its two tests.
abbrev sending : Bool → Bool → Message → Logger → Option Logger
sending synchronous room msg l =
    if synchronous
    then some (write_to_outputs msg l)
    else if room
    then some (record l { msg_chan = l.msg_chan ++ msg ∷ []; wg = l.wg + 1 })
    else none

pub write_msg-sending :
    (msg : Message) (l : Logger) (b : Bool)
    → l.synchronous ≡ false
    → sends l ≡ b
    → write_msg msg l ≡ sending false b msg l
unfolding write_msg
write_msg-sending msg l b h k =
    ap (λ s. sending s (sends l) msg l) h ∙ ap (λ c. sending false c msg l) k

send-InOrder :
    (os : List Output) (sent : List Message) (l l' : Logger) (msg : Message)
    → InOrder os sent l
    → write_msg msg l ≡ some l'
    → InOrder os (sent ++ msg ∷ []) l'
unfolding write_msg
send-InOrder os sent l l' msg inv e = elim (Bool-cases (sends l)) [
  | inl room ↦
      (let q : record l { msg_chan = l.msg_chan ++ msg ∷ []; wg = l.wg + 1 } ≡ l' =
          some-injective (sym (write_msg-sending msg l true inv.asynchronous room) ∙ e) in
        subst (InOrder os (sent ++ msg ∷ [])) q (record {
          asynchronous = inv.asynchronous;
          outputs = inv.outputs;
          done = inv.done;
          split = ap (λ x. x ++ msg ∷ []) inv.split ∙ append_assoc inv.done l.msg_chan (msg ∷ []);
          given = inv.given;
          counted = omega (arith, inv.counted, length-append l.msg_chan (msg ∷ []));
        }))
  | inr full ↦ (let q = sym (write_msg-sending msg l false inv.asynchronous full) ∙ e in cc)
]

-- The message at the front of the channel goes to the outputs.
front-InOrder :
    (os : List Output) (sent : List Message) (l : Logger) (msg : Message) (msgs : List Message)
    → InOrder os sent l
    → l.msg_chan ≡ msg ∷ msgs
    → InOrder os sent (write_to_outputs msg (record l { msg_chan = msgs; wg = l.wg - 1 }))
unfolding write_to_outputs
front-InOrder os sent l msg msgs inv h = record {
  asynchronous = inv.asynchronous;
  outputs = inv.outputs;
  done = inv.done ++ msg ∷ [];
  split = inv.split ∙ ap (λ q. inv.done ++ q) h ∙ sym (append_assoc inv.done (msg ∷ []) msgs);
  given =
      ap (λ w. w ++ given l.outputs msg) inv.given
      ∙ ap (λ o. given_all os inv.done ++ given o msg) inv.outputs
      ∙ sym (
          given_all-append os inv.done (msg ∷ [])
          ∙ ap (λ r. given_all os inv.done ++ r) (append-nil (given os msg)));
  counted = (let n = ap length h in omega (arith, n, inv.counted));
}

take-InOrder :
    (os : List Output) (sent : List Message) (l l' : Logger)
    → InOrder os sent l
    → take_message l ≡ some l'
    → InOrder os sent l'
unfolding take_message
take-InOrder os sent l l' inv e = elim (Bool-cases l.writing) [
  | inr idle ↦ (let q = (rw (idle, take_message) at e) in cc)
  | inl busy ↦ by_chan l.msg_chan refl (rw (busy, take_message) at e)
]
  where
    by_chan :
        (c : List Message)
        → l.msg_chan ≡ c
        → (elim c as (λ c. Option Logger) [
          | [] ↦ none
          | msg ∷ msgs ↦ some (write_to_outputs msg (record l { msg_chan = msgs; wg = l.wg - 1 }))
        ])
          ≡ some l'
        → InOrder os sent l'
    by_chan [] h q = cc
    by_chan (msg ∷ msgs) h q =
        subst (InOrder os sent) (some-injective q) (front-InOrder os sent l msg msgs inv h)

-- The whole channel goes to the outputs, in its order.
pub stop-InOrder :
    (os : List Output) (sent : List Message) (l l' : Logger)
    → InOrder os sent l
    → take_flush l ≡ some l'
    → InOrder os sent l' × (l'.msg_chan ≡ []) × (l'.writing ≡ false)
unfolding take_flush flush
stop-InOrder os sent l l' inv e = elim (Bool-cases l.writing) [
  | inr idle ↦ (let q = (rw (idle, take_flush) at e) in cc)
  | inl busy ↦
      (let halted : Logger = record l { writing = false } in
        let (empty, none_left, same, still, off) = drain-rest l.msg_chan halted inv.counted in
        let flushed : flush halted ≡ drain l.msg_chan halted =
          ap (λ s. if s then halted else drain l.msg_chan halted) inv.asynchronous in
        let q : drain l.msg_chan halted ≡ l' = some-injective (
          ap some (sym flushed)
          ∙ sym (ap (λ b. if b then some (flush halted) else none) busy)
          ∙ e) in
        subst (λ l'. InOrder os sent l' × (l'.msg_chan ≡ []) × (l'.writing ≡ false)) q
          (
            record {
              asynchronous = still ∙ inv.asynchronous;
              outputs = same ∙ inv.outputs;
              done = sent;
              split = sym (append-nil sent) ∙ ap (λ c. sent ++ c) (sym empty);
              given =
                  drain-given l.msg_chan halted
                  ∙ ap (λ w. w ++ given_all l.outputs l.msg_chan) inv.given
                  ∙ ap (λ o. given_all os inv.done ++ given_all o l.msg_chan) inv.outputs
                  ∙ sym (ap (given_all os) inv.split ∙ given_all-append os inv.done l.msg_chan);
              counted = none_left ∙ ap length (sym empty);
            },
            empty,
            off,
          ))
]

pub run-InOrder :
    (l m : Logger) (os : List Output) (sent : List Message)
    → InOrder os [] l
    → Run l sent m
    → InOrder os sent m
run-InOrder l m os sent inv (start _) = inv
run-InOrder l m os sent inv (send {mid} {before} msg r e) =
    send-InOrder os before mid m msg (run-InOrder l mid os before inv r) e
run-InOrder l m os sent inv (take {mid} r e) =
    take-InOrder os sent mid m (run-InOrder l mid os sent inv r) e
run-InOrder l m os sent inv (stop {mid} r e) =
    (stop-InOrder os sent mid m (run-InOrder l mid os sent inv r) e).0
