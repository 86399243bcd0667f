-- ===== src/Ui/Made.antt =====
-- The jobs that the user's requests put in the queue.
use dappctrl.Base.{
  Option, ◌%◌, ◌^◌, if◌then◌else◌, ◌+◌, Bool-cases, ◌==◌, ◌≡◌, refl, ◌∙◌, ap, ◌⊎◌, inl, inr, ℕ,
  none, some, ◌∷◌,
}
use dappctrl.Data.{Instant, Uuid, Job, JobType, JobStatus, JobCreator, RelatedType, Payload}
use dappctrl.Store.{Db, World, Action, ◌>>=◌}
use dappctrl.Store.Frames.{pure-Keeps, Keeps, >>=-Keeps, frames}
use dappctrl.Store.Ensures.{
  Ends, >>=-Ends, >>=-then-Ends, exec-Ends, on_error-Ends, Ensures, >>=-Ensures, or_raise-Ensures,
  pure-Ensures,
}
use dappctrl.Job.Config.{TypeConfig, type_config}
use dappctrl.Job.Add.Outcome.{check_duplicated-Keeps}
use dappctrl.Job.Add.{add, new_job, stamped, add_with_data, add_with_data_and_delay}
use dappctrl.Handlers.Found.{any-Ensures}
use dappctrl.Handlers.Table.{checked_kind}
use dappctrl.Ui.Env.{Handler}
use dappctrl.Ui.Access.{gas_or_suggested, suggested_gas_price}
use dappctrl.Ui.Channels.{add_user_job}

-- A job that the user made: active, of a type, for a record, with its data. What it is for is what
-- the handler of the type asks for, if it asks.
pub record IsFor (ty : JobType) (rel : RelatedType) (id : Uuid) (p : Payload) (j : Job)
    : Type 0 where
  pub active : j.status ≡ JobStatus.active
  pub creator : j.created_by ≡ JobCreator.user
  pub type : j.type ≡ ty
  pub kind : j.related_type ≡ rel
  pub checked : (checked_kind ty ≡ none) ⊎ (checked_kind ty ≡ some rel)
  pub related : j.related_id ≡ id
  pub asked : j.payload ≡ p

-- No new job, or one of which `P` holds.
abbrev pub Gains : (Job → Type 0) → Db → Db → Type 0
Gains P d d' = (d'.jobs ≡ d.jobs) ⊎ ((j : Job) × (P j × (d'.jobs ≡ j ∷ d.jobs)))

abbrev pub Leaves : {A : Type 0} → (Job → Type 0) → Action A → World → Db → Type 0
Leaves P m w d = Ends m w (Gains P d)

pub same : {P : Job → Type 0} {d d' : Db} → d' ≡ d → Gains P d d'
same e = inl (ap (λ x. x.jobs) e)

-- A call that leaves the tables alone.
module _ {A B : Type 0} {P : Job → Type 0} (d : Db) (m : Action A) (f : A → Action B)
    (w : World) where
  pub then-Leaves :
      w.db ≡ d
      → Keeps m
      → ((a : A) (w' : World) → w'.db ≡ d → Leaves P (f a) w' d)
      → Leaves P (m >>= f) w d
  then-Leaves e k g = >>=-Ends _ m f w (same e) k (any-Ensures m w) λ a w' q _. g a w' (q ∙ e)

stamped-IsFor :
    (h : Handler) (ty : JobType) (rel : RelatedType) (id : Uuid) (p : Payload) (t : Instant)
    (conf : TypeConfig)
    → (checked_kind ty ≡ none) ⊎ (checked_kind ty ≡ some rel)
    → IsFor ty rel id p (stamped conf h.stamp (new_job ty rel id JobCreator.user p t))
unfolding stamped new_job
stamped-IsFor h ty rel id p t conf k = record {
  active = refl;
  creator = refl;
  type = refl;
  kind = refl;
  checked = k;
  related = refl;
  asked = refl;
}

pub add_user_job-Leaves :
    {P : Job → Type 0} (h : Handler) (ty : JobType) (rel : RelatedType) (id : Uuid) (p : Payload)
    (d : Db) (w : World)
    → w.db ≡ d
    → (checked_kind ty ≡ none) ⊎ (checked_kind ty ≡ some rel)
    → ((j : Job) → IsFor ty rel id p j → P j)
    → Leaves P (add_user_job h ty rel id p) w d
unfolding add_user_job add_with_data add_with_data_and_delay add
add_user_job-Leaves h ty rel id p d w e k g =
    let j = new_job ty rel id JobCreator.user p (h.now + 0) in
    let row = stamped (type_config h.queue j) h.stamp j in
    >>=-then-Ends _ _ w
      (then-Leaves d _ _ w e (search (frames, check_duplicated-Keeps _)) λ _ w1 e1.
        >>=-then-Ends _ _ w1
          (on_error-Ends _ _ w1 (
            exec-Ends _ w1 (same e1) (
              inr (
                row,
                (g row (stamped-IsFor h ty rel id p _ _ k), ap (λ (x : Db). row ∷ x.jobs) e1),
              ))))
          λ _. search frames)
      λ _. search frames

pub suggested-Keeps : (h : Handler) → Keeps (suggested_gas_price h)
unfolding suggested_gas_price
suggested-Keeps h = >>=-Keeps _ _ (search frames) λ _. search frames

pub gas-Keeps : (h : Handler) (gas : ℕ) → Keeps (gas_or_suggested h gas)
unfolding gas_or_suggested
gas-Keeps h gas = elim (Bool-cases (gas == 0)) [
  | inl t ↦ record { keeps = λ w. rw t ((suggested-Keeps h).keeps w) }
  | inr f ↦ record { keeps = λ w. rw f ((pure-Keeps gas).keeps w) }
]

-- The gas price that a request comes to: its own, or the node's, in 64 bits, for zero.
abbrev pub in_64_bits : Option ℕ → Option ℕ
in_64_bits none = none
in_64_bits (some n) = some (n % 2 ^ 64)

abbrev pub price_for : Handler → ℕ → Option ℕ
price_for h gas = if gas == 0 then in_64_bits h.suggest_gas_price else some gas

suggested-Ensures :
    (h : Handler) (w : World)
    → Ensures (suggested_gas_price h) w (λ n _. in_64_bits h.suggest_gas_price ≡ some n)
unfolding suggested_gas_price
suggested-Ensures h w =
    >>=-Ensures _ _ _ w (or_raise-Ensures _ _ w) λ n w1 q. pure-Ensures _ w1 (ap in_64_bits q.0)

pub gas-Ensures :
    (h : Handler) (gas : ℕ) (w : World)
    → Ensures (gas_or_suggested h gas) w (λ n _. price_for h gas ≡ some n)
unfolding gas_or_suggested
gas-Ensures h gas w = elim (Bool-cases (gas == 0)) [
  | inl t ↦ rw t (suggested-Ensures h w)
  | inr f ↦ rw f (pure-Ensures gas w refl)
]
