-- ===== src/Rooms/Publish.antt =====
-- src/token-gated-rooms/queues/publish-nip29.processor.ts and publish-policy.ts: one attempt of a publish
-- job, and the delay before the next. The token bucket, which only delays it, is left out.
pub mod Answered
pub mod Backoff
use Prim.Native.String.{String}
use superhero_api.Base.Text.{contains}
use superhero_api.Base.{
  ℕ, ◌+◌, ◌-◌, ◌*◌, ◌^◌, Bool, true, false, not, ◌&&◌, ◌||◌, Option, none, some, ◌∷◌, ◌==◌, leb,
  max, min, if◌then◌else◌, or_else,
}
use superhero_api.Rooms.Store.{Job, publish_ack, group_missing, World, emit}
use superhero_api.Rooms.Nip29.{remove_user_kind, delete_group_kind, pubkey_from_tags}

-- cappedExponentialBackoff, with its defaults at their call.
unfoldable pub capped_exponential_backoff : ℕ → ℕ → ℕ → ℕ
capped_exponential_backoff attempts_made base_ms cap_ms =
    min (base_ms * 2 ^ (max 1 attempts_made - 1)) cap_ms

abbrev pub publish_backoff_cap_ms : ℕ
publish_backoff_cap_ms = 5 * 60 * 1000

abbrev pub publish_backoff_base_ms : ℕ
publish_backoff_base_ms = 1000

-- cappedBackoffStrategy of publish-nip29.job-options.ts
abbrev pub capped_backoff_strategy : ℕ → ℕ
capped_backoff_strategy attempts_made =
    capped_exponential_backoff attempts_made publish_backoff_base_ms publish_backoff_cap_ms

-- publishNip29JobOptions: the attempts of a job.
abbrev pub attempts_of : ℕ → ℕ
attempts_of max_retries = max 1 (max_retries + 1)

-- What the relay answers. The reason is in lower case, as reasonText makes it.
pub record Reply : Type 0 where
  pub ok : Bool
  pub reason : Option String
  pub timed_out : Bool

-- The attempt returns or throws. Bull tries a job again that threw, unless it was discarded or this was
-- its last attempt.
pub data Outcome : Type 0 where
  done threw : Outcome

pub record Processed : Type 0 where
  pub world : World
  pub outcome : Outcome
  -- Whether the queue was paused, and the job discarded, by the attempt.
  pub paused : Bool
  pub discarded : Bool

abbrev pub some_set : Option ℕ → Option ℕ
some_set none = none
some_set (some a) = if a == 0 then none else some a

-- emitAck; an empty pubkey is left out.
abbrev pub emit_ack : Job → Bool → World → World
emit_ack job ok w =
    emit
      (publish_ack job.sale_address job.template.kind
        (some_set (pubkey_from_tags job.template.tags)) ok)
      w

abbrev pub answer : World → Outcome → Processed
answer w outcome = record { world = w; outcome = outcome; paused = false; discarded = false }

abbrev pub is_already_exists : String → Bool
is_already_exists msg = contains msg "already exists" || contains msg "duplicate"

abbrev pub is_terminal_reject : String → Bool
is_terminal_reject msg =
    contains msg "only relay admin"
    || (contains msg "was deleted" && contains msg "existed before")
    || contains msg "group existed before and was deleted"

abbrev pub is_group_not_found : String → Bool
is_group_not_found msg = contains msg "group not found"

abbrev pub wants_absence : Job → Bool
wants_absence job = job.template.kind == remove_user_kind || job.template.kind == delete_group_kind

unfoldable pub on_group_not_found : Job → World → Processed
on_group_not_found job w = if wants_absence job then answer (emit_ack job true w) done else record {
  world = emit_ack job false (emit (group_missing job.sale_address) w);
  outcome = threw;
  paused = false;
  discarded = true;
}

unfoldable pub on_reject : Job → Bool → Reply → World → Processed
on_reject job last reply w =
    let reason = or_else reply.reason "publish failed" in
    if is_already_exists reason
    then answer (emit_ack job true w) done
    else if is_terminal_reject reason
    then answer (emit_ack job false w) threw
    else if is_group_not_found reason
    then on_group_not_found job w
    else record {
      world = if last then emit_ack job false w else w;
      outcome = threw;
      paused = reply.timed_out;
      discarded = false;
    }

-- isLastAttempt
abbrev pub is_last_attempt : ℕ → ℕ → Bool
is_last_attempt attempts attempts_made = leb attempts (attempts_made + 1)

-- One attempt, with the relay's health and its answer.
unfoldable pub process : ℕ → ℕ → Bool → Reply → Job → World → Processed
process attempts attempts_made healthy reply job w =
    if not healthy
    then record { world = w; outcome = threw; paused = true; discarded = false }
    else if reply.ok
    then answer (emit_ack job true w) done
    else on_reject job (is_last_attempt attempts attempts_made) reply w
