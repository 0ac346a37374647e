-- ===== src/Receiver/State.antt =====
-- The state of `fmtpRecvv3`, what it does to the outside, and its small methods.
use fmtp_ldm.Prelude.{ℕ, Bool, true, false, Option, none, some, List, [], ◌∷◌, ◌++◌, if◌then◌else◌}
use fmtp_ldm.Prelude.Dict.{lookup, insert, erase}
use fmtp_ldm.FmtpBase.{
  FmtpHeader, BopError, fmtp_bop_req, fmtp_eop_req, fmtp_retx_req, fmtp_retx_end,
}
use fmtp_ldm.ProdSegMng.{SegMapSet}

-- `prodptr` is where the application wants the product, `none` for a null pointer.
pub record ProdTracker : Type 0 where
  pub prodsize : ℕ
  pub prodptr : Option ℕ
  pub seqnum : ℕ
  pub paylen : ℕ
  pub num_retrans : ℕ

-- `INLReqMsg`, by its `reqtype`: a BOP or an EOP has the fields 0 and 0.
pub data Request : Type 0 where
  missing_bop : ℕ → Request
  missing_data : ℕ → ℕ → ℕ → Request
  missing_eop : ℕ → Request
  shutdown : Request

-- `timerParam`: the seconds of a product are those that `prodsize` bytes take, times `Frcv`; they are
-- negative at shutdown.
pub data TimerParam : Type 0 where
  timer_for : ℕ → ℕ → TimerParam
  timer_shutdown : TimerParam

-- What the receiver does to the outside, in order: it tells the application of a product's start (the
-- time as its three words, the index, the size and the metadata), end (with the number of
-- retransmitted packets) and loss, it wakes those who wait in `getNotify` where there is no notifier,
-- it sends a header on the TCP connection, and it stores a payload at an address.
pub data Action : Type 0 where
  start_prod : ℕ → ℕ → ℕ → ℕ → ℕ → List ℕ → Action
  end_prod : ℕ → ℕ → Action
  missed_prod : ℕ → Action
  notify_waiters : ℕ → Action
  sends : FmtpHeader → Action
  stores : ℕ → List ℕ → Action

pub data RecvError : Type 0 where
  bad_bop : BopError → RecvError
  bad_payload_len out_of_boundary no_product end_of_stream read_failed short_packet send_failed :
      RecvError

-- How a handler ends. `stuck` is the fuel of a loop.
pub data Outcome : Type 0 where
  returned stuck : Outcome
  threw : RecvError → Outcome

pub record Receiver : Type 0 where
  pub prodidx_mcast : ℕ
  pub mcast_hndlr_started : Bool
  pub trackermap : List (ℕ × ProdTracker)
  pub eop_map : List (ℕ × Bool)
  pub seg_mng : SegMapSet
  pub mis_bop_set : List ℕ
  pub msgqueue : List Request
  pub timer_param_q : List TimerParam
  pub notifyprodidx : ℕ
  pub has_notifier : Bool
  -- the TCP connection takes what is sent; it is set from outside
  pub tcp_up : Bool
  pub stop_requested : Bool
  -- `except` is set
  pub excepted : Bool

-- The constructor.
abbrev pub new : Bool → Receiver
new has_notifier = record {
  prodidx_mcast = 4294967295;
  mcast_hndlr_started = false;
  trackermap = [];
  eop_map = [];
  seg_mng = [];
  mis_bop_set = [];
  msgqueue = [];
  timer_param_q = [];
  notifyprodidx = 0;
  has_notifier = has_notifier;
  tcp_up = true;
  stop_requested = false;
  excepted = false;
}

abbrev pub Handled : Type 0
Handled = Receiver × List Action × Outcome

-- What a method does after another one has returned.
abbrev pub then_do : Handled → (Receiver → Handled) → Handled
then_do (r, out, returned) next = let (r', out', end) = next r in (r', out ++ out', end)
then_do (r, out, stuck) next = (r, out, stuck)
then_do (r, out, threw e) next = (r, out, threw e)

-- `Stop` and `taskExit`.
unfoldable pub stop : Receiver → Receiver
stop r = record r { stop_requested = true }

unfoldable pub task_exit : Receiver → Receiver
task_exit r = record r { excepted = true }

unfoldable pub init_eop_status : Receiver → ℕ → Receiver
init_eop_status r prodindex = record r { eop_map = insert prodindex false r.eop_map }

unfoldable pub set_eop_status : Receiver → ℕ → Receiver
set_eop_status r prodindex = record r { eop_map = insert prodindex true r.eop_map }

unfoldable pub clear_eop_status : Receiver → ℕ → Receiver
clear_eop_status r prodindex = record r { eop_map = erase prodindex r.eop_map }

-- `EOPmap[prodindex]` adds the default, which is false, where the key is absent.
unfoldable pub get_eop_status : Receiver → ℕ → Receiver × Bool
get_eop_status r prodindex = elim (lookup prodindex r.eop_map) [
  | none ↦ (record r { eop_map = insert prodindex false r.eop_map }, false)
  | some status ↦ (r, status)
]

unfoldable pub push_request : Receiver → Request → Receiver
push_request r request = record r { msgqueue = r.msgqueue ++ request ∷ [] }

-- `reqEOPifMiss`
unfoldable pub req_eop_if_miss : Receiver → ℕ → Receiver × Bool
unfolding get_eop_status push_request
req_eop_if_miss r prodindex =
    let (r', status) = get_eop_status r prodindex in
    if status then (r', false) else (push_request r' (missing_eop prodindex), true)

-- `sendBOPRetxReq`, `sendDataRetxReq`, `sendEOPRetxReq` and `sendRetxEnd`: the header that is sent.
abbrev header : ℕ → ℕ → ℕ → ℕ → FmtpHeader
header prodindex seqnum payloadlen flags = record {
  prodindex = prodindex;
  seqnum = seqnum;
  payloadlen = payloadlen;
  flags = flags;
}

unfoldable pub request_header : Request → Option FmtpHeader
request_header (missing_bop prodindex) = some (header prodindex 0 0 fmtp_bop_req)
request_header (missing_data prodindex seqnum payloadlen) =
    some (header prodindex seqnum payloadlen fmtp_retx_req)
request_header (missing_eop prodindex) = some (header prodindex 0 0 fmtp_eop_req)
request_header shutdown = none

unfoldable pub send_retx_end : ℕ → Action
send_retx_end prodindex = sends (header prodindex 0 0 fmtp_retx_end)
