-- ===== src/Messaging/Connection/Single.antt =====
-- One connection at a time.
use msa_training.Prelude.{
  ℕ, suc, ◌+◌, ◌≤◌, ◌≡◌, refl, ap, sym, ◌∙◌, Bool, true, false, Option, none, some, List, [], ◌∷◌,
  ◌++◌, length, length-append, if◌then◌else◌, arith,
}
use msa_training.Messaging.Timers.{handles}
use msa_training.Messaging.Connection.{
  Attempt, dialing, opening, Connection, Step, Steps, asks, connects, opens, fails, is_reset,
  closes, here, next_step, get_channel, connected, opened, failed, reset, close,
}

-- The calls of `_connect` are those that `_connecting` knows of, there is none beside a cached channel,
-- and the channel is of the cached connection.
abbrev IsSingle : Connection → Type 0
IsSingle c =
    (length c.attempts ≡ (if c.connecting then 1 else 0))
    × (length c.attempts + length (handles c.channel) ≤ 1)
    × (c.channel ≡ c.connection)

drop_one :
    (l before : List Attempt) (a : Attempt) (after : List Attempt)
    → l ≡ before ++ a ∷ after
    → length l ≡ suc (length (before ++ after))
drop_one l before a after e =
    ap length e ∙ length-append before (a ∷ after) ∙ omega (arith, length-append before after)

same_length :
    (l before : List Attempt) (a b : Attempt) (after : List Attempt)
    → l ≡ before ++ a ∷ after
    → length (before ++ b ∷ after) ≡ length l
same_length l before a b after e =
    length-append before (b ∷ after) ∙ sym (length-append before (a ∷ after)) ∙ sym (ap length e)

asks-IsSingle : (c : Connection) → IsSingle c → IsSingle (get_channel c).1
unfolding get_channel
asks-IsSingle c h = asked c.channel c.connecting h
  where
    asked :
        (channel : Option ℕ) (connecting : Bool)
        → IsSingle (record c { channel = channel; connecting = connecting })
        → IsSingle (get_channel (record c { channel = channel; connecting = connecting })).1
    asked (some _) connecting h = h
    asked none true h = h
    asked none false (count, few, same) = (omega (arith, count), omega (arith, count), same)

step-IsSingle : (a b : Connection) → Step a b → IsSingle a → IsSingle b
unfolding connected opened failed reset close
step-IsSingle _ _ (asks c) h = asks-IsSingle c h
step-IsSingle _ _ (connects c before after e) (count, few, same) =
    let kept = same_length c.attempts before dialing (opening c.next) after e in
    (kept ∙ count, omega (arith, kept, few), same)
step-IsSingle _ _ (opens c before n after e) (count, few, same) =
    let dropped = drop_one c.attempts before (opening n) after e in
    (omega (arith, dropped, few), omega (arith, dropped, few), refl)
step-IsSingle _ _ (fails c before a after e) (count, few, same) =
    let dropped = drop_one c.attempts before a after e in
    (omega (arith, dropped, few), omega (arith, dropped, few), same)
step-IsSingle _ _ (is_reset c) (count, few, same) = (count, omega (arith, few), refl)
step-IsSingle _ _ (closes c) (count, few, same) = (count, omega (arith, few), refl)

Steps-IsSingle : (a b : Connection) → Steps a b → IsSingle a → IsSingle b
Steps-IsSingle _ _ (here c) h = h
Steps-IsSingle _ _ (next_step a b c before last) h =
    step-IsSingle b c last (Steps-IsSingle a b before h)

abbrev pub unconnected : Connection
unconnected = record {
  connection = none;
  channel = none;
  connecting = false;
  attempts = [];
  next = 0;
}

-- However the callers, RabbitMQ and the shutdown interleave, there is never more than one connection
-- being made, none beside a cached channel, and the cached channel is the cached connection's.
pub connects_once :
    (c : Connection)
    → Steps unconnected c
    → length c.attempts + length (handles c.channel) ≤ 1 × c.channel ≡ c.connection
connects_once c steps =
    let (_, few, same) = Steps-IsSingle unconnected c steps (refl, omega arith, refl) in (few, same)
