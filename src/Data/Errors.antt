-- ===== src/Data/Errors.antt =====
-- The error values of the packages that are modelled: proc/processor.go, job/errors.go,
-- sess/errors.go, client/bill, proc/worker/errors.go and ui/errors.go, and the replies of the pay server.
-- proc/worker/errors.go
pub data WorkerError : Type 0 where
  internal invalid_job account_not_found channel_not_found : WorkerError
  offering_not_found user_not_found endpoint_not_found template_not_found : WorkerError
  template_by_hash_not_found eth_log_not_found product_not_found : WorkerError
  parse_job_data parse_private_key parse_eth_addr parse_offering_hash : WorkerError
  parse_eth_log wrong_log_non_indexed_args_number wrong_log_topics_number : WorkerError
  insufficient_ptc_balance insufficient_psc_balance : WorkerError
  insufficient_eth_balance small_deposit find_approval_balance_data : WorkerError
  ptc_retrieve_balance ptc_retrieve_allowance ptc_increase_approval : WorkerError
  psc_retrieve_balance psc_add_balance psc_return_balance : WorkerError
  psc_cooperative_close psc_register_offering psc_remove_offering : WorkerError
  psc_popup_offering psc_offering_supply psc_create_channel : WorkerError
  psc_get_channel_info psc_settle psc_top_up_channel : WorkerError
  psc_uncooperative_close eth_get_transaction eth_tx_in_pending_state : WorkerError
  eth_retrieve_balance eth_log_channel_mismatch eth_latest_block_number : WorkerError
  recover_client_pub_key terminate_channel_failed add_job_failed : WorkerError
  sign_closing_msg no_receipt_signature make_endpoint_msg endpoint_msg_seal : WorkerError
  generate_password_hash publish_endpoint publish_offering fetch_offering : WorkerError
  somc_no_offerings offer_not_registered offer_not_correspond_to_template : WorkerError
  channel_receipt_balance invalid_channel_status invalid_service_status : WorkerError
  offering_no_supply no_endpoint decrypt_endpoint_msg invalid_endpoint : WorkerError
  failed_stop_service failed_start_service challenge_period_is_not_over : WorkerError
  wrong_offering_msg_signature uncompleted_jobs_exists offering_not_active : WorkerError
  offering_exists popup_period_is_not_over : WorkerError
  offering_delete_period_is_not_over offering_deposit tor_no_set : WorkerError
  tx_no_gas_increase eth_tx_is_mined tx_not_found : WorkerError

-- ui/errors.go
pub data UiError : Type 0 where
  access_denied internal object_not_found account_not_found channel_not_found : UiError
  template_not_found default_gas_price_not_found empty_password : UiError
  min_confirmations_not_found offering_not_found password_exists product_not_found : UiError
  invalid_template_type malformed_template deposit_too_small bad_unit_price_range : UiError
  bad_unit_type billing_type bad_offering_status_action bad_object_type : UiError
  failed_to_decode_private_key failed_to_decrypt_pkey private_key_not_found : UiError
  token_amount_too_small bad_destination bad_action not_allowed_for_agent : UiError
  job_not_found bad_service_endpoint_address invalid_value_for_setting : UiError
  inconsistent_somc_switch somc_is_not_available tx_not_found tx_is_underpriced : UiError
  success_job_non_reactivatable already_active_job : UiError

pub data Error : Type 0 where
  -- Any error of the database driver, and reform.ErrNoRows.
  db_error no_rows : Error
  -- proc
  bad_service_status active_jobs_exist same_job_exists : Error
  -- job
  already_processing duplicated_job handler_not_found queue_closed subscription_exists : Error
  subscription_not_found job_internal : Error
  -- sess
  access_denied channel_not_found bad_client_password sess_internal non_active_channel : Error
  session_not_found endpoint_not_found bad_product_config : Error
  -- client/bill
  get_offering get_consumed_units : Error
  -- Replies of the pay server.
  pay_no_channel pay_closed_channel pay_terminated_service pay_unexpected : Error
  pay_invalid_signature pay_equal_balance pay_invalid_balance : Error
  -- A Go panic, which the HTTP or RPC server recovers from.
  panic : Error
  -- A process that calls logger.Fatal ends there.
  fatal : Error
  -- proc/worker
  worker : WorkerError → Error
  -- ui
  ui : UiError → Error
  -- Any other error, by a number.
  failure : Error
