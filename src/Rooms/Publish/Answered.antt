-- ===== src/Rooms/Publish/Answered.antt =====
-- process of publish-nip29.processor.ts: what an attempt tells the other services.
use superhero_api.Base.{◌==◌, Bool, true, false, ◌&&◌, ◌||◌, ◌≡◌, or_else}
use Prim.Native.String.{String}
use superhero_api.Base.Text.{contains}
use superhero_api.Rooms.Store.{Job, group_missing, World, emit}
use superhero_api.Rooms.Nip29.{remove_user_kind, delete_group_kind}
use superhero_api.Rooms.Publish.{Reply, done, threw, Processed, emit_ack}

abbrev reason_of : Reply → String
reason_of reply = or_else reply.reason "publish failed"

-- What a reason says, the first of these that fits: the group is there already, the relay will never
-- take the event, the group is gone, or something else.
pub data Verdict : Type 0 where
  exists never gone other : Verdict

pub data Says (s : String) : Verdict → Type 0 where
  says_exists : (contains s "already exists" || contains s "duplicate") ≡ true → Says s exists
  says_never :
      (contains s "already exists" || contains s "duplicate") ≡ false
      → (contains s "only relay admin"
          || (contains s "was deleted" && contains s "existed before")
          || contains s "group existed before and was deleted")
        ≡ true
      → Says s never
  says_gone :
      (contains s "already exists" || contains s "duplicate") ≡ false
      → (contains s "only relay admin"
          || (contains s "was deleted" && contains s "existed before")
          || contains s "group existed before and was deleted")
        ≡ false
      → contains s "group not found" ≡ true
      → Says s gone
  says_other :
      (contains s "already exists" || contains s "duplicate") ≡ false
      → (contains s "only relay admin"
          || (contains s "was deleted" && contains s "existed before")
          || contains s "group existed before and was deleted")
        ≡ false
      → contains s "group not found" ≡ false
      → Says s other

-- What an attempt does, by the health of the relay and its answer.
pub data Answered (last healthy : Bool) (reply : Reply) (job : Job) (w : World)
    : Processed → Type 0 where
  down :
      healthy ≡ false
      → Answered last healthy reply job w
          (record { world = w; outcome = threw; paused = true; discarded = false })
  accepted :
      healthy ≡ true
      → reply.ok ≡ true
      → Answered last healthy reply job w (record {
        world = emit_ack job true w;
        outcome = done;
        paused = false;
        discarded = false;
      })
  known :
      healthy ≡ true
      → reply.ok ≡ false
      → Says (reason_of reply) exists
      → Answered last healthy reply job w (record {
        world = emit_ack job true w;
        outcome = done;
        paused = false;
        discarded = false;
      })
  refused :
      healthy ≡ true
      → reply.ok ≡ false
      → Says (reason_of reply) never
      → Answered last healthy reply job w (record {
        world = emit_ack job false w;
        outcome = threw;
        paused = false;
        discarded = false;
      })
  absent :
      healthy ≡ true
      → reply.ok ≡ false
      → Says (reason_of reply) gone
      → (job.template.kind == remove_user_kind || job.template.kind == delete_group_kind) ≡ true
      → Answered last healthy reply job w (record {
        world = emit_ack job true w;
        outcome = done;
        paused = false;
        discarded = false;
      })
  missing :
      healthy ≡ true
      → reply.ok ≡ false
      → Says (reason_of reply) gone
      → (job.template.kind == remove_user_kind || job.template.kind == delete_group_kind) ≡ false
      → Answered last healthy reply job w (record {
        world = emit_ack job false (emit (group_missing job.sale_address) w);
        outcome = threw;
        paused = false;
        discarded = true;
      })
  exhausted :
      healthy ≡ true
      → reply.ok ≡ false
      → Says (reason_of reply) other
      → last ≡ true
      → Answered last healthy reply job w (record {
        world = emit_ack job false w;
        outcome = threw;
        paused = reply.timed_out;
        discarded = false;
      })
  again :
      healthy ≡ true
      → reply.ok ≡ false
      → Says (reason_of reply) other
      → last ≡ false
      → Answered last healthy reply job w
          (record { world = w; outcome = threw; paused = reply.timed_out; discarded = false })

module _ (last : Bool) (reply : Reply) (job : Job) (w : World) (rejects : reply.ok ≡ false) where
  abbrev Fits : Processed → Type 0
  Fits = Answered last true reply job w
