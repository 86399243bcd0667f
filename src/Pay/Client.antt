-- ===== src/Pay/Client.antt =====
-- pay/client.go: sending a cheque. Building and sending the request is the network's; what is
-- modelled is what the client does with the reply.
use dappctrl.Base.{ℕ, false, ◌==◌, if◌then◌else◌}
use dappctrl.Data.{Channel, Error, JobCreator}
use dappctrl.Data.Error.{failure, pay_terminated_service}
use dappctrl.Store.{World, Result, ok, err, Action}
use dappctrl.Job.Config.{Config}
use dappctrl.Job.Add.{Stamp}
use dappctrl.Proc.Channel.{terminate_channel}
use dappctrl.Pay.Server.{reply_code}

-- What `srv.Send` returns: no reply, an accepted payment, or a refusal with its code.
pub data Reply : Type 0 where
  no_reply accepted : Reply
  refused : ℕ → Reply

-- The error that `postPayload` returns: an `srv.Error` keeps its code.
pub data Posted : Type 0 where
  posted : Posted
  refused_with : ℕ → Posted
  failed_with : Error → Posted

abbrev after_terminate : ℕ → Result ℕ × World → Result Posted × World
after_terminate code (ok _, w) = (ok (refused_with code), w)
after_terminate code (err e, w) = (ok (failed_with e), w)

-- `postPayload` after the request was sent.
unfoldable pub handle_reply : Config → Stamp → Channel → Reply → Action Posted
handle_reply conf s ch no_reply w = (ok (failed_with failure), w)
handle_reply conf s ch accepted w = (ok posted, w)
handle_reply conf s ch (refused code) w =
    if code == reply_code pay_terminated_service
    then after_terminate code (terminate_channel conf s ch.id JobCreator.billing_checker false w)
    else (ok (refused_with code), w)
