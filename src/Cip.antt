-- ===== src/Cip.antt =====
-- c/src/client.c: the last CIP-layer rejection of a client.
use cmee1y1_clients.Base.{◌≡◌, refl, Option, none, some, ok, err}
use cmee1y1_clients.State.{CipStatus, Client, M}
use cmee1y1_clients.State.Code

module _ {W : Type 0} where
  unfoldable pub bp_record_cip_error : CipStatus → Client W → Client W
  bp_record_cip_error s c = record c { cip_err = some s }

  unfoldable pub take_error : Option CipStatus → M W CipStatus
  take_error none c = (c, err Code.generic)
  take_error (some s) c = (record c { cip_err = none }, ok s)

  unfoldable pub bp_client_last_cip_error : M W CipStatus
  bp_client_last_cip_error c = take_error c.cip_err c

  -- Of the rejections recorded since the last read the newest is reported, and it is reported once.
  pub last_cip_error_once :
      (older newest : CipStatus) (c : Client W)
      → let read =
          bp_client_last_cip_error (bp_record_cip_error newest (bp_record_cip_error older c)) in
        (read.1 ≡ ok newest) × (bp_client_last_cip_error read.0 ≡ (read.0, err Code.generic))
  unfolding bp_client_last_cip_error take_error bp_record_cip_error
  last_cip_error_once older newest c = (refl, refl)
