-- ===== src/Sender/State.antt =====
-- The state of `fmtpSendv3`, what it sends and whom it tells, and its small methods.
use fmtp_ldm.Prelude.{ℕ, suc, Bool, true, false, ◌||◌, List, [], ◌∷◌, take, if◌then◌else◌}
use fmtp_ldm.FmtpBase.{FmtpHeader}
use fmtp_ldm.SenderMetadata.{MetaMap, RetxMetadata}
use fmtp_ldm.SenderMetadata.Sets.{member}
use fmtp_ldm.ProdIndexDelayQueue.{Queue}
use fmtp_ldm.SilenceSuppressor.{ProdSet}
use fmtp_ldm.SilenceSuppressor

-- What the sender does to the outside, in order. `notify_waiters` is the store to `notifyprodidx` and
-- the two condition variables, where the application gave no callback.
pub data Output : Type 0 where
  multicast : FmtpHeader → List ℕ → Output
  unicast : ℕ → FmtpHeader → List ℕ → Output
  notify_of_eop : ℕ → Output
  notify_waiters : ℕ → Output

pub record Sender : Type 0 where
  pub prod_index : ℕ
  pub send_meta : MetaMap
  pub conn_sock_list : List ℕ
  pub timer_delay_q : Queue
  pub suppressor : ProdSet
  pub notifyprodidx : ℕ
  pub has_notifier : Bool
  -- `except` is set
  pub broken : Bool
  -- `tsnd * 60` seconds, in ticks of the clock
  pub retx_timeout : ℕ

abbrev pub header : ℕ → ℕ → ℕ → ℕ → FmtpHeader
header prodindex seqnum payloadlen flags = record {
  prodindex = prodindex;
  seqnum = seqnum;
  payloadlen = payloadlen;
  flags = flags;
}

-- A call of the application, which no socket can fail.
unfoldable pub tells : Output → Bool
tells (multicast h payload) = false
tells (unicast sock h payload) = false
tells (notify_of_eop prodindex) = true
tells (notify_waiters prodindex) = true

-- The prefix of the packets that is sent before the first failure of a socket, and whether there was
-- none: `ok i` says that the `i`-th packet goes out.
unfoldable pub transmit : (ℕ → Bool) → ℕ → List Output → List Output × Bool
unfolding tells
transmit ok i [] = ([], true)
transmit ok i (o ∷ os) =
    let (sent, all) = transmit ok (suc i) os in
    if ok i || tells o then (o ∷ sent, all) else ([], false)

-- `taskBroke`; which exception it is, is not modelled.
unfoldable pub task_broke : Sender → Sender
task_broke s = record s { broken = true }

-- `unfinReceivers.insert(*it)` for every connected socket.
unfoldable pub insert_all : List ℕ → List ℕ → List ℕ
insert_all [] receivers = receivers
insert_all (x ∷ xs) receivers =
    insert_all xs (if member x receivers then receivers else x ∷ receivers)

-- `fmtpSendv3::addRetxMetadata`
unfoldable pub new_retx_metadata : Sender → List ℕ → ℕ → List ℕ → ℕ → ℕ → ℕ → RetxMetadata
unfolding insert_all
new_retx_metadata s product data_size metadata meta_size sec nsec = record {
  start_sec = sec;
  start_nsec = nsec;
  prodindex = s.prod_index;
  prod_length = data_size;
  meta_size = meta_size;
  metadata = take meta_size metadata;
  dataprod = product;
  unfin_receivers = insert_all s.conn_sock_list [];
  inuse = false;
  remove_flag = false;
}

-- The application is told that a product is finished, from `handleRetxEnd` and from `timerThread`.
unfoldable pub notify_finished : Sender → ℕ → Sender × List Output
notify_finished s prodindex = if s.has_notifier then (s, notify_of_eop prodindex ∷ []) else (
  record s {
    suppressor = (SilenceSuppressor.remove s.suppressor prodindex).0;
    notifyprodidx = prodindex;
  },
  notify_waiters prodindex ∷ [],
)
