-- ===== src/Operations/Relay.antt =====
-- A relay's tick over one saga, run on its own, with a broker that takes every message.
use msa_training.Prelude.{
  ℕ, ◌+◌, String, ◌≡◌, refl, ap, sym, ◌∙◌, Bool, true, false, ◌||◌, ◌&&◌, some, List, [], ◌∷◌, ◌++◌,
  ◌==◌, eq_refl, ltb, Bool-cases, inl, inr, if◌then◌else◌, arith,
}
use msa_training.Errors.{Error, Result, ok, err}
use msa_training.Async.{Async, return, call, catch, run, ◌>>=◌, ◌>>◌}
use msa_training.Saga.Contracts.{Queue, Message, same_step}
use msa_training.Models.{Saga, OutboxEntry, OutboxStatus, is_pending}
use msa_training.Backend.{Backend, World}
use msa_training.Persistence.Sagas.{
  has_pending, has_entry, set_sent, mark_sent, arm_deadline, mark_outbox_sent,
}
use msa_training.Messaging.OutboxRelay.{
  RelayConfig, pending_entries, send, after_send, relay_entries,
}

-- Entries that are all SENT are passed over.
has_entry-sent :
    (id : String) (ds es : List OutboxEntry)
    → has_pending ds ≡ false
    → has_entry id (ds ++ es) ≡ has_entry id es
unfolding has_pending has_entry
has_entry-sent id [] es h = refl
has_entry-sent id (d ∷ ds) es h = ground (arith, has_entry-sent id ds es)

set_sent-sent :
    (id : String) (now : ℕ) (ds es : List OutboxEntry)
    → has_pending ds ≡ false
    → set_sent id now (ds ++ es) ≡ ds ++ set_sent id now es
unfolding has_pending set_sent
set_sent-sent id now [] es h = refl
set_sent-sent id now (d ∷ ds) es h =
    let gone : (d.id == id && is_pending d.status) ≡ false = ground arith in
    let rest : has_pending ds ≡ false = ground arith in
    rw gone (ap (λ l. d ∷ l) (set_sent-sent id now ds es rest))

has_pending-append :
    (ds es : List OutboxEntry) → has_pending (ds ++ es) ≡ (has_pending ds || has_pending es)
unfolding has_pending
has_pending-append [] es = refl
has_pending-append (d ∷ ds) es = ground (arith, has_pending-append ds es)

append-middle :
    (ds : List OutboxEntry) (e : OutboxEntry) (es : List OutboxEntry)
    → (ds ++ e ∷ []) ++ es ≡ ds ++ e ∷ es
append-middle [] e es = refl
append-middle (d ∷ ds) e es = ap (λ l. d ∷ l) (append-middle ds e es)

abbrev sent_at : ℕ → OutboxEntry → OutboxEntry
sent_at now e = record e { status = OutboxStatus.sent; last_attempt_at = some now }

module _ (b : Backend) (c : RelayConfig) (g : Saga) where
  -- the world after the publication of one command and its mark
  abbrev taken : OutboxEntry → World b → ℕ × World b
  taken e w = mark_sent b g.saga_id e.id w.clock (send b c e w).1

  abbrev armed : OutboxEntry → ℕ → World b → World b
  armed e now w = (arm_deadline b g.saga_id e.message.step_name (now + c.step_timeout_ms) w).1

  abbrev marked : OutboxEntry → World b → World b
  marked e w = if ltb 0 (taken e w).0 then armed e w.clock (taken e w).1 else (taken e w).1

  module _ (e : OutboxEntry) (k : Async (World b) (Unit {0})) where
    after_mark :
        (won : Bool) (now : ℕ) (h : Error → Async (World b) (Unit {0})) (v : World b)
        → run
            (catch
                (if won
                  then call (arm_deadline b g.saga_id e.message.step_name (now + c.step_timeout_ms))
                  else return tt)
                h
              >> k)
            v
          ≡ run k (if won then armed e now v else v)
    unfolding run
    after_mark true now h v = refl
    after_mark false now h v = refl

    decided :
        (w : World b) (r : Result (Unit {0}))
        → r ≡ ok tt
        → run (after_send b c g e (w.clock, r) >> k) (send b c e w).1 ≡ run k (marked e w)
    unfolding after_send mark_outbox_sent run
    decided w (ok tt) h = after_mark (ltb 0 (taken e w).0) w.clock _ (taken e w).1
    decided w (err x) h = absurd (cc h)

    relay_one :
        (w : World b)
        → (b.publish e.queue e.message w.broker).0 ≡ ok tt
        → run ((call (send b c e) >>= after_send b c g e) >> k) w ≡ run k (marked e w)
    unfolding send run
    relay_one w accepted = decided w (b.publish e.queue e.message w.broker).0 accepted

  -- The outbox of the saga's stored document.
  abbrev StoredOutbox : World b → List OutboxEntry → Type 0
  StoredOutbox w es =
      (g' : Saga) × (b.sagas.find_one g.saga_id w.sagas ≡ some g') × (g'.outbox ≡ es)

  taken-StoredOutbox :
      (ds : List OutboxEntry) (e : OutboxEntry) (es : List OutboxEntry) (w : World b)
      → has_pending ds ≡ false
      → is_pending e.status ≡ true
      → StoredOutbox w (ds ++ e ∷ es)
      → StoredOutbox (taken e w).1 (ds ++ sent_at w.clock e ∷ es)
  unfolding mark_sent send has_entry set_sent
  taken-StoredOutbox ds e es w none_ pending (g', found, outbox) =
      let hit : has_entry e.id g'.outbox ≡ true =
        ap (has_entry e.id) outbox
        ∙ has_entry-sent e.id ds (e ∷ es) none_
        ∙ rw (eq_refl e.id) (rw pending refl) in
      let set : set_sent e.id w.clock g'.outbox ≡ ds ++ sent_at w.clock e ∷ es =
        ap (set_sent e.id w.clock) outbox
        ∙ set_sent-sent e.id w.clock ds (e ∷ es) none_
        ∙ rw (eq_refl e.id) (rw pending refl) in
      (
        record g' { outbox = set_sent e.id w.clock g'.outbox },
        b.sagas.find_one-update_one g.saga_id (λ x. has_entry e.id x.outbox)
              (λ x. record x { outbox = set_sent e.id w.clock x.outbox }) w.sagas g.saga_id
            ∙ rw (eq_refl g.saga_id) (rw found (rw hit refl)),
        set,
      )

  armed-StoredOutbox :
      (e : OutboxEntry) (now : ℕ) (es : List OutboxEntry) (w : World b)
      → StoredOutbox w es
      → StoredOutbox (armed e now w) es
  unfolding arm_deadline
  armed-StoredOutbox e now es w (g', found, outbox) =
      let law =
        b.sagas.find_one-update_one g.saga_id (λ x. same_step x.current_step e.message.step_name)
          (λ x. record x { deadline = some (now + c.step_timeout_ms) }) w.sagas g.saga_id in
      elim (Bool-cases (same_step g'.current_step e.message.step_name)) [
        | inl here ↦ (
          record g' { deadline = some (now + c.step_timeout_ms) },
          law ∙ rw (eq_refl g.saga_id) (rw found (rw here refl)),
          outbox,
        )
        | inr elsewhere ↦ (g', law ∙ rw (eq_refl g.saga_id) (rw found (rw elsewhere refl)), outbox)
      ]

  marked-StoredOutbox :
      (ds : List OutboxEntry) (e : OutboxEntry) (es : List OutboxEntry) (w : World b)
      → has_pending ds ≡ false
      → is_pending e.status ≡ true
      → StoredOutbox w (ds ++ e ∷ es)
      → StoredOutbox (marked e w) (ds ++ sent_at w.clock e ∷ es)
  marked-StoredOutbox ds e es w none_ pending stored =
      let now_stored = taken-StoredOutbox ds e es w none_ pending stored in
      elim (Bool-cases (ltb 0 (taken e w).0)) [
        | inl won ↦ rw won (armed-StoredOutbox e w.clock _ (taken e w).1 now_stored)
        | inr lost ↦ rw lost now_stored
      ]

  -- The relay, from the entries `es` on, where those before them are SENT.
  relays :
      (accepts : (q : Queue) (m : Message) (br : b.Broker) → (b.publish q m br).0 ≡ ok tt)
      (ds es : List OutboxEntry) (w : World b)
      → has_pending ds ≡ false
      → StoredOutbox w (ds ++ es)
      → ((run (relay_entries b c g (pending_entries es)) w).0 ≡ ok tt)
        × ((g' : Saga) × (b.sagas.find_one g.saga_id
                (run (relay_entries b c g (pending_entries es)) w).1.sagas
              ≡ some g')
            × (has_pending g'.outbox ≡ false))
  unfolding relay_entries pending_entries has_pending run
  relays accepts ds [] w none_ (g', found, outbox) =
      (refl, (g', found, ap has_pending outbox ∙ has_pending-append ds [] ∙ ground (arith, none_)))
  relays accepts ds (e ∷ es) w none_ stored = elim (Bool-cases (is_pending e.status)) [
    | inl pending ↦
        let next = marked-StoredOutbox ds e es w none_ pending stored in
        let (done, rest) =
          relays accepts (ds ++ sent_at w.clock e ∷ []) es (marked e w)
            (has_pending-append ds (sent_at w.clock e ∷ []) ∙ rw none_ refl)
            (next.0, next.1, next.2 ∙ sym (append-middle ds (sent_at w.clock e) es)) in
        let step =
          relay_one e (relay_entries b c g (pending_entries es)) w
            (accepts e.queue e.message w.broker) in
        rw pending (rw step (done, rest))
    | inr sent ↦ rw sent (
        relays accepts (ds ++ e ∷ []) es w (has_pending-append ds (e ∷ []) ∙ rw (none_, sent) refl)
          (stored.0, stored.1, stored.2 ∙ sym (append-middle ds e es)))
  ]

  -- When the broker takes every message, a tick over a saga that is stored as it was read ends, and
  -- leaves no command of the saga PENDING.
  pub relay_sends_all :
      ((q : Queue) (m : Message) (br : b.Broker) → (b.publish q m br).0 ≡ ok tt)
      → (w : World b) → b.sagas.find_one g.saga_id w.sagas ≡ some g
      → let (result, w') = run (relay_entries b c g (pending_entries g.outbox)) w in
        (result ≡ ok tt)
        × ((g' : Saga) × (b.sagas.find_one g.saga_id w'.sagas ≡ some g')
            × (has_pending g'.outbox ≡ false))
  unfolding has_pending
  relay_sends_all accepts w found = relays accepts [] g.outbox w refl (g, found, refl)
