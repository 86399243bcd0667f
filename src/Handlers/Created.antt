-- ===== src/Handlers/Created.antt =====
-- What the agent's handler of a new channel leaves behind.
use dappctrl.Base.{ℕ, ◌≡◌, Option, none, some, List, arith}
use dappctrl.Data.{
  AbiValue, User, HexString, Base64String, Offering, Channel, Job, JobType, RelatedType, JobEthLog,
  Error,
}
use dappctrl.Store.{Db, World, err, in_tx, exec_count, pure, raise}
use dappctrl.Store.Frames.{
  Keeps, IsAtomic, >>=-Keeps, >>=-IsAtomic, commit-IsAtomic, on_error-IsAtomic, attempt-Keeps,
  on_error-Keeps, frames,
}
use dappctrl.Job.Add.{add_with_data, add_with_data_and_delay}
use dappctrl.Job.Add.Outcome.{add-Keeps}
use dappctrl.Handlers.Env.{Worker}
use dappctrl.Handlers.Select.{check_job, event_log, offering_by_hash}
use dappctrl.Handlers.Events.{created_data, extract_log_channel_created}
use dappctrl.Handlers.Misc.{update_offering, add_job_with_data, add_job}
use dappctrl.Handlers.Channels.{
  new_user, insert_client, insert_new_channel, register_channel, agent_after_channel_create_job,
}
use dappctrl.Handlers.Found.{refuse-Keeps, three_topics-Keeps, log_of-Keeps}

exec_count-Keeps : (f : Db → Db) (n : Db → ℕ) → Keeps (exec_count in_tx f n)
unfolding exec_count
exec_count-Keeps f n = record { keeps = λ w. ground arith }

ruleset lookups = (frames, refuse-Keeps, exec_count-Keeps, attempt-Keeps)

created_data-Keeps : (l : List AbiValue) → Keeps (created_data l)
unfolding created_data pure raise
created_data-Keeps l = record { keeps = λ w. ground arith }

extract-Keeps : (h : Worker) (l : JobEthLog) → Keeps (extract_log_channel_created h l)
unfolding extract_log_channel_created
extract-Keeps h l = >>=-Keeps _ _ (search lookups) λ values.
    >>=-Keeps _ _ (created_data-Keeps values)
      λ _. >>=-Keeps _ _ (three_topics-Keeps l.topics) λ _. search lookups

update_offering-Keeps : (o : Offering) → Keeps (update_offering in_tx o)
unfolding update_offering
update_offering-Keeps o = on_error-Keeps _ _ (>>=-Keeps _ _ (search lookups) λ _. search lookups)

insert_client-Keeps : (u : Option User) → Keeps (insert_client u)
unfolding insert_client
insert_client-Keeps none = search lookups
insert_client-Keeps (some u) = search lookups

insert_new_channel-Keeps : (ch : Channel) → Keeps (insert_new_channel ch)
unfolding insert_new_channel
insert_new_channel-Keeps ch = search lookups

offering_by_hash-Keeps : (hash : HexString) → Keeps (offering_by_hash hash)
unfolding offering_by_hash
offering_by_hash-Keeps hash = >>=-Keeps _ _ (search lookups) λ _. search lookups

pub add_job_tx-Keeps :
    (h : Worker) (n : ℕ) (ty : JobType) (rel : RelatedType) (id : ℕ)
    → Keeps (add_job h in_tx n ty rel id)
unfolding add_job add_job_with_data add_with_data add_with_data_and_delay
add_job_tx-Keeps h n ty rel id =
    >>=-Keeps _ _ (on_error-Keeps _ _ (add-Keeps h.queue (h.stamp n) _)) λ _. search lookups

new_user-Keeps : (h : Worker) (sender : HexString × Base64String) → Keeps (new_user h sender)
unfolding new_user
new_user-Keeps h sender = >>=-Keeps _ _ (search lookups) λ _. search lookups

register-IsAtomic :
    (h : Worker) (j : Job) (l : JobEthLog) (client : Option User)
    → IsAtomic (register_channel h j l client)
unfolding register_channel
register-IsAtomic h j l client = >>=-IsAtomic _ _ (search lookups) λ _.
    >>=-IsAtomic _ _ (insert_client-Keeps client) λ _. >>=-IsAtomic _ _ (extract-Keeps h l) λ args.
      >>=-IsAtomic _ _ (offering_by_hash-Keeps _) λ offer. >>=-IsAtomic _ _ (search lookups) λ _.
        >>=-IsAtomic _ _ (update_offering-Keeps _) λ _.
          >>=-IsAtomic _ _ (insert_new_channel-Keeps _) λ _.
            >>=-IsAtomic _ _ (add_job_tx-Keeps h 0 _ _ _) λ _. on_error-IsAtomic _ _ commit-IsAtomic

create-IsAtomic : (h : Worker) (j : Job) → IsAtomic (agent_after_channel_create_job h j)
unfolding agent_after_channel_create_job check_job event_log
create-IsAtomic h j = >>=-IsAtomic _ _ (search lookups) λ _.
    >>=-IsAtomic _ _ (log_of-Keeps j.payload) λ l.
      >>=-IsAtomic _ _ (search lookups) λ sender.
        >>=-IsAtomic _ _ (new_user-Keeps h sender) λ client. register-IsAtomic h j l client

-- Whatever fails, an agent's handler of a new channel that ends in an error leaves no trace in the
-- tables: no user, no channel, no job, and the offering's supply as it was.
pub agent_after_channel_create_job-atomic :
    (h : Worker) (j : Job) (w : World) (e : Error)
    → (agent_after_channel_create_job h j w).0 ≡ err e
    → (agent_after_channel_create_job h j w).1.db ≡ w.db
agent_after_channel_create_job-atomic h j w e p = (create-IsAtomic h j).atomic w e p
