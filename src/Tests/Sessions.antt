-- ===== src/Tests/Sessions.antt =====
-- Requests of an adapter on samples.
use dappctrl.Base.{
  ℕ, ◌+◌, ◌*◌, ◌^◌, ◌≤◌, ◌≡◌, refl, arith, false, none, some, List, [], ◌∷◌, length, any, find?,
  ◌==◌, ◌<◌, ◌-◌,
}
use dappctrl.Data.{ServiceStatus, activating}
use dappctrl.Data.Error.{access_denied}
use dappctrl.Store.{Db, answering, monad, ok, err}
use dappctrl.Job.Config.{type_config}
use dappctrl.Job.Add.{
  add, add_with_data, add_with_data_and_delay, check_duplicated, is_duplicate, compared_tx, stamped,
  new_job,
}
use dappctrl.Sess.Access.{Server, salt_rune, check_product_password, find_client_channel}
use dappctrl.Sess.Session.{
  complete_transition, service_ready, auth_client, start_session, update_session, stop_session,
  get_endpoint, record_start, insert_session, new_session,
}
use dappctrl.Sess.Refused.{Denies, is_authorized, requests_denied}
use dappctrl.Sess.Units.{after_reports, sum, after_reports-sum}
use dappctrl.Sess.Started.{IsStarted, start_session_effect}
use dappctrl.Tests.Samples.{sample_db, sample_config, sample_stamp, sample_offering}

-- The password of the sample product is its hash less its salt.
abbrev sample_server : Server
sample_server = record {
  queue = sample_config;
  stamp = sample_stamp;
  now = 1000;
  session_id = 81;
  validate = λ hash password salt. hash == password + salt;
}

abbrev served_db : Db
served_db = sample_db ServiceStatus.active 0 []

abbrev activating_db : Db
activating_db = sample_db activating 0 []

wrong_password : is_authorized sample_server 70 1 served_db ≡ false
unfolding is_authorized salt_rune find?
wrong_password = refl

requests_denied_example :
    Denies (service_ready sample_server 70 1 40) (answering served_db)
    × Denies (auth_client sample_server 70 1 40 2) (answering served_db)
    × Denies (start_session sample_server 70 1 40 none 0) (answering served_db)
    × Denies (update_session sample_server 70 1 40 5000000) (answering served_db)
    × Denies (stop_session sample_server 70 1 40) (answering served_db)
    × Denies (get_endpoint sample_server 70 1 40) (answering served_db)
requests_denied_example =
    requests_denied sample_server 70 40 1 2 none 0 5000000 (answering served_db) wrong_password

session_started :
    (start_session sample_server 70 66 40 (some 3) 8080 (answering activating_db)).0
    ≡ ok sample_offering
unfolding start_session check_product_password salt_rune find_client_channel record_start
    insert_session new_session complete_transition add add_with_data add_with_data_and_delay
    check_duplicated is_duplicate compared_tx stamped new_job type_config monad find? any
session_started = refl

start_session_effect_example :
    IsStarted sample_server 70 40 66
      (some 3)
      8080
      activating_db
      sample_offering
      (start_session sample_server 70 66 40 (some 3) 8080 (answering activating_db)).1.db
start_session_effect_example =
    start_session_effect sample_server 70 40 66 (some 3) 8080 (answering activating_db)
      sample_offering session_started

abbrev two_reports : List ℕ
two_reports = 1000000 ∷ 3000000 ∷ []

few_bytes : 9 * 2 ^ 20 + sum two_reports < 2 ^ 84
unfolding sum
few_bytes = omega arith

after_reports-sum_example :
    (after_reports two_reports 9 * 2 ^ 20 ≤ 9 * 2 ^ 20 + sum two_reports)
    × (9 * 2 ^ 20 + sum two_reports
        ≤ after_reports two_reports 9 * 2 ^ 20 + length two_reports * (2 ^ 20 - 1))
after_reports-sum_example = after_reports-sum two_reports 9 few_bytes

refused_start :
    (start_session sample_server 70 1 40 none 0 (answering served_db)).0 ≡ err access_denied
unfolding start_session check_product_password salt_rune monad find?
refused_start = refl
