-- ===== src/Tests/Conns.antt =====
-- Runs of the connections' theorems.
use cmee1y1_clients.Base.{◌≤◌, ◌<◌, ◌≡◌, ◌⊎◌, err, refl, true, some, [], ◌∷◌}
use cmee1y1_clients.State.{Client}
use cmee1y1_clients.State.Code
use cmee1y1_clients.Conn.{ConnSpec, bp_client_txrx_open, bp_client_txrx_close, bp_client_txrx_msg}
use cmee1y1_clients.Conn.Wire.{ot_size_of, ot_size_bounds, lfo_max_ot_size}
use cmee1y1_clients.Conn.Table.{lookup, Distinct}
use cmee1y1_clients.Conn.Open.{Opened, txrx_open-Opened}
use cmee1y1_clients.Conn.Use.{Closes, txrx_close-Closes}
use cmee1y1_clients.Conn.Messages.{IsMissing, IsGiven, Converses, txrx_msg-Converses}
use cmee1y1_clients.Tests.{server, client, blank_conn, message}

abbrev spec_of_7 : ConnSpec
spec_of_7 = record {
  app_handle = 7;
  options = 0;
  encoded_path = some (1 ∷ 3 ∷ []);
  path_size = 2;
  conn_params = 0;
}

-- A client with a connection under handle 7.
abbrev connected : Client (Unit {0})
connected = record client {
  txrx_conns =
      blank_conn
      ∷ record blank_conn { in_use = true; app_handle = 7; slot = 3; conn_serial = 5 }
      ∷ [];
}

connected-Distinct : Distinct connected.txrx_conns
unfolding lookup
connected-Distinct = (λ e. refl, (λ e. refl, tt))

txrx_open-Opened_example :
    let r = bp_client_txrx_open server (some spec_of_7) client in
    Opened 7 client.txrx_conns r.0.txrx_conns r.1
txrx_open-Opened_example = txrx_open-Opened server spec_of_7 client

txrx_close-Closes_example :
    Closes server 7 connected (bp_client_txrx_close server (some spec_of_7) connected)
txrx_close-Closes_example = txrx_close-Closes server spec_of_7 connected connected-Distinct

ot_size_bounds_example : (0 < ot_size_of 9000) × (ot_size_of 9000 ≤ lfo_max_ot_size)
ot_size_bounds_example = ot_size_bounds 9000

txrx_msg-Converses_example :
    let r = bp_client_txrx_msg server (some spec_of_7) message connected in
    (IsMissing server message × (r ≡ (connected, err Code.null_arg)))
    ⊎ (IsGiven server message × Converses server 7 message connected r)
txrx_msg-Converses_example = txrx_msg-Converses server spec_of_7 message connected
