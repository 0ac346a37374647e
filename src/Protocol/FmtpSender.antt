-- ===== src/Protocol/FmtpSender.antt =====
-- protocol/FMTPSender.{h,cpp} and protocol/FmtpSenderMetadata.{h,cpp}: the multicast of a file, and the
-- thread that answers the requests of one receiver. `SysError` only prints. Not modelled: clocks (that
-- a message has timed out is an argument), the rate, statistics.
pub mod Answers
pub mod Multicasts
pub mod Files
use fmtp_ldm.Prelude.{
  ℕ, zero, suc, ◌+◌, ◌-◌, ◌*◌, ◌%◌, Bool, true, false, not, Option, none, some, List, [], ◌∷◌, ◌++◌,
  ltb, leb, ◌==◌, take, length, if◌then◌else◌,
}
use fmtp_ldm.Prelude.Word.{add32, u32_mod}
use fmtp_ldm.Prelude.Dict.{lookup, insert, erase, is_some}
use fmtp_ldm.Prelude.Memory.{write_at, slice}
use fmtp_ldm.SenderMetadata.Sets.{member, remove}
use fmtp_ldm.Protocol.{
  Header, has_flag, fmtp_data_len, fmtp_data, retrans_req_bit, retrans_end_bit, fmtp_retrans_data,
  fmtp_retrans_end, fmtp_retrans_timeout, RetransRequest,
}

-- `FileMessageMetadata` without its times; `file` is what the file of that name holds.
pub record MessageMetadata : Type 0 where
  pub msg_length : ℕ
  pub file : List ℕ
  pub unfinished_recvers : List ℕ

abbrev pub MetadataMap : Type 0
MetadataMap = List (ℕ × MessageMetadata)

unfoldable pub add_message_metadata : MetadataMap → ℕ → MessageMetadata → MetadataMap
add_message_metadata map msg_id meta = insert msg_id meta map

unfoldable pub remove_message_metadata : MetadataMap → ℕ → MetadataMap
remove_message_metadata map msg_id = erase msg_id map

-- `in_time` says that the timeout of the message has not passed.
unfoldable pub is_transfer_finished : MetadataMap → ℕ → Bool → Bool
is_transfer_finished map msg_id in_time = elim (lookup msg_id map) [
  | none ↦ true
  | some meta ↦ if in_time then length meta.unfinished_recvers == 0 else true
]

unfoldable pub remove_finished_receiver : MetadataMap → ℕ → ℕ → MetadataMap
remove_finished_receiver map msg_id sock = elim (lookup msg_id map) [
  | none ↦ map
  | some meta ↦
      insert msg_id (record meta { unfinished_recvers = remove sock meta.unfinished_recvers }) map
]

-- The loop of `DoMemoryTransfer`, on fuel: `none` if that runs out. Each packet is the header and all of
-- `data`, as `SendData(buffer, FMTP_HLEN, data, dataLen)` sends them.
unfoldable pub transfer_loop : ℕ → ℕ → List ℕ → ℕ → ℕ → ℕ → Option (List (Header × List ℕ))
transfer_loop zero session content start_seq_num remained offset = none
transfer_loop (suc fuel) session content start_seq_num remained offset =
    let data_size = if ltb remained fmtp_data_len then remained else fmtp_data_len in
    let header : Header = record {
      session_id = session;
      seq_number = add32 offset start_seq_num;
      data_len = data_size;
      flags = fmtp_data;
    } in
    let rest =
      transfer_loop fuel session content start_seq_num (remained - data_size)
        (offset + data_size) in
    if ltb 0 remained
    then elim rest [ none ↦ none | some packets ↦ some ((header, content) ∷ packets) ]
    else some []

unfoldable pub do_memory_transfer : ℕ → List ℕ → ℕ → Option (List (Header × List ℕ))
unfolding transfer_loop
do_memory_transfer session content start_seq_num =
    transfer_loop (suc (length content)) session content start_seq_num (length content) 0

-- What one retransmission thread keeps: the files that it has opened, by session, each with its bytes,
-- and the messages whose timeout it has reported.
pub record RetransThread : Type 0 where
  pub retrans_fd_map : List (ℕ × List ℕ)
  pub timeout_set : List ℕ

-- The loop that answers a request, on fuel. `stale` is what the send buffer holds: `read` fills it from
-- its start, with fewer bytes at the end of the file.
unfoldable pub retrans_loop : ℕ → ℕ → List ℕ → List ℕ → ℕ → ℕ → Option (List (Header × List ℕ))
retrans_loop zero session file stale remained curr_pos = none
retrans_loop (suc fuel) session file stale remained curr_pos =
    let data_length = if ltb fmtp_data_len remained then fmtp_data_len else remained in
    let buffer = write_at 0 (slice curr_pos data_length file) stale in
    let header : Header = record {
      session_id = session;
      seq_number = curr_pos % u32_mod;
      data_len = data_length;
      flags = fmtp_retrans_data;
    } in
    let rest =
      retrans_loop fuel session file buffer (remained - data_length) (curr_pos + data_length) in
    if ltb 0 remained
    then elim rest [
      | none ↦ none
      | some packets ↦ some ((header, take data_length buffer) ∷ packets)
    ]
    else some []

abbrev pub plain_header : ℕ → ℕ → Header
plain_header session flags = record {
  session_id = session;
  seq_number = 0;
  data_len = 0;
  flags = flags;
}

-- The file of a session: the one that is open, otherwise that of the message, which is then opened.
unfoldable pub opened : RetransThread → ℕ → MessageMetadata → RetransThread × List ℕ
opened t session meta = elim (lookup session t.retrans_fd_map) [
  | some file ↦ (t, file)
  | none ↦ (record t { retrans_fd_map = insert session meta.file t.retrans_fd_map }, meta.file)
]

-- What the thread has done: it goes on with a new state and with what it has sent, or the fuel ran out.
abbrev pub Answered : Type 0
Answered = Option (RetransThread × List (Header × List ℕ))

unfoldable pub handle_retrans_req :
    RetransThread → MetadataMap → Header → RetransRequest → Bool → List ℕ → Answered
handle_retrans_req t map header req late stale = elim (lookup req.msg_id map) [
  | none ↦ some (t, [])
  | some meta ↦
      if member req.msg_id t.timeout_set
      then some (t, [])
      else if late
      then some (
        record t { timeout_set = req.msg_id ∷ t.timeout_set },
        (plain_header req.msg_id fmtp_retrans_timeout, []) ∷ [],
      )
      else let (t', file) = opened t header.session_id meta in
        elim (retrans_loop (suc req.data_len) header.session_id file stale req.data_len
          req.seq_num) [ none ↦ none | some packets ↦ some (t', packets) ]
]

unfoldable pub handle_retrans_end : RetransThread → Header → RetransThread × List (Header × List ℕ)
handle_retrans_end t header = (
  record t {
    retrans_fd_map = erase header.session_id t.retrans_fd_map;
    timeout_set = remove header.session_id t.timeout_set;
  },
  (plain_header header.session_id fmtp_retrans_end, []) ∷ [],
)

-- One round of `RunRetransThread` of the receiver on `sock`, for a header and the request that follows
-- it. The statistics of experiments change nothing here.
unfoldable pub retrans_round :
    MetadataMap
    → RetransThread
    → ℕ
    → Header
    → RetransRequest
    → Bool
    → List ℕ
    → Option (MetadataMap × RetransThread × List (Header × List ℕ))
unfolding has_flag
retrans_round map t sock header req late stale =
    if has_flag header.flags retrans_req_bit
    then elim (handle_retrans_req t map header req late stale) [
      | none ↦ none
      | some (t', packets) ↦ some (map, t', packets)
    ]
    else if has_flag header.flags retrans_end_bit
    then (let (t', packets) = handle_retrans_end t header in
        some (remove_finished_receiver map header.session_id sock, t', packets))
    else some (map, t, [])

-- The state that `SendFile` changes.
pub record FmtpSender : Type 0 where
  pub cur_session_id : ℕ
  pub metadata : MetadataMap
  pub conn_sock_list : List ℕ

-- What it multicasts: the BOF with the length that its message announces, data packets, and the EOF.
pub data FileOut : Type 0 where
  bof_out : Header → ℕ → FileOut
  data_out : Header → List ℕ → FileOut
  eof_out : Header → FileOut

-- 4096 * FMTP_DATA_LEN
abbrev pub max_mapped_mem_size : ℕ
max_mapped_mem_size = 5898240

unfoldable pub data_outs : List (Header × List ℕ) → List FileOut
data_outs [] = []
data_outs ((h, payload) ∷ packets) = data_out h payload ∷ data_outs packets

-- The loop over the pieces of the file that are mapped, on fuel.
unfoldable pub mapped_loop : ℕ → ℕ → List ℕ → ℕ → ℕ → Option (List (Header × List ℕ))
mapped_loop zero session file remained offset = none
mapped_loop (suc fuel) session file remained offset =
    let map_size = if ltb remained max_mapped_mem_size then remained else max_mapped_mem_size in
    let rest = mapped_loop fuel session file (remained - map_size) (offset + map_size) in
    if ltb 0 remained
    then elim (do_memory_transfer session (slice offset map_size file) offset) [
      | none ↦ none
      | some packets ↦ elim rest [ none ↦ none | some more ↦ some (packets ++ more) ]
    ]
    else some []

abbrev pub file_header : ℕ → ℕ → ℕ → Header
file_header session data_len flags = record {
  session_id = session;
  seq_number = 0;
  data_len = data_len;
  flags = flags;
}

-- `SendFile` for a file that can be opened; `sender_msg_len` is `sizeof(FmtpSenderMessage)`.
unfoldable pub send_file : FmtpSender → ℕ → List ℕ → Option (FmtpSender × List FileOut)
unfolding mapped_loop data_outs
send_file s sender_msg_len file =
    let session = add32 s.cur_session_id 1 in
    let meta : MessageMetadata = record {
      msg_length = length file;
      file = file;
      unfinished_recvers = s.conn_sock_list;
    } in
    elim (mapped_loop (suc (length file)) session file (length file) 0) [
      | none ↦ none
      | some packets ↦ some (
        record s {
          cur_session_id = session;
          metadata = add_message_metadata s.metadata session meta;
        },
        bof_out (file_header session sender_msg_len 1) (length file) ∷ data_outs packets
            ++ eof_out (file_header session 0 2) ∷ [],
      )
    ]
