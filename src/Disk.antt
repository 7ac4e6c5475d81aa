-- ===== src/Disk.antt =====
-- Master and minion together: the datagrams of one are the arrivals of the other.
use distributed_disk.Common.{
  ℕ, suc, ◌+◌, ◌%◌, ◌^◌, ◌<◌, ◌≡◌, refl, ◌∙◌, some, List, [], ◌∷◌, ◌++◌, arith, length, take, drop,
  take-length, length-append, length-take, length-drop, length-replicate, Option-cases, inl, inr,
  nat_eq,
}
use distributed_disk.Common.Bytes.{to_le, length-to_le, overlay, range_of}
use distributed_disk.Common.Dict.{lookup}
use distributed_disk.Common.Exec.{ok}
use distributed_disk.Protocol.{
  Block, block_size, Request, Reply, IsRequest, IsReply, ErrorCode, no_error, not_enough_space,
  corruption, block_not_founed, code_of, make_request, make_reply, reply_size, reply_bytes,
  init_block,
}
use distributed_disk.Protocol.Layout.{request_head, length-reply_bytes}
use distributed_disk.Raid
use distributed_disk.Minions.{MinionData}
use distributed_disk.Minions
use distributed_disk.Storage.{Storage, load_entry}
use distributed_disk.Storage
use distributed_disk.Net.{SockAddr, Arrival, datagram, send_to, server_send}
use distributed_disk.Nbd.{IoResult, CmdArgs}
use distributed_disk.Minion.{Minion, serve}
use distributed_disk.Minion.Requests.{serve_read}
use distributed_disk.Master.{Master, read_cmd}
use distributed_disk.Master.Asking.{tries, asked}
use distributed_disk.Master.Reads.{counted, read_request, Takes, wrote, read_cmd_first}

-- The buffer of MinReadCmd stays a block.
length-load :
    (beyond : List ℕ) (stack : Block) (key : ℕ) (s : Storage)
    → length stack ≡ block_size
    → 8 + length beyond ≡ block_size
    → length (Storage.load beyond stack key s).1 ≡ block_size
unfolding Storage.load overlay
length-load beyond stack key s room rest = elim (Option-cases (lookup key s.map)) [
  | inl e ↦
      rw (e, load_entry) (omega (arith, length-append (0 ∷ []) (drop 1 stack), length-drop 1 stack))
  | inr (p, e) ↦
      rw (e, load_entry)
        (omega (
          arith,
          length-append (take block_size (to_le 8 p ++ beyond))
              (drop (length (take block_size (to_le 8 p ++ beyond))) stack),
          length-drop (length (take block_size (to_le 8 p ++ beyond))) stack,
          length-take block_size (to_le 8 p ++ beyond),
          length-append (to_le 8 p) beyond,
          length-to_le 8 p,
        ))
]

code_of-lt : (e : ErrorCode) → code_of e < range_of 4
code_of-lt no_error = omega arith
code_of-lt not_enough_space = omega arith
code_of-lt corruption = omega arith
code_of-lt block_not_founed = omega arith

make_reply-IsReply :
    (id : ℕ) (error : ErrorCode) (block : Block)
    → id < range_of 8
    → length block ≡ block_size
    → IsReply (make_reply id 1 error (some block))
unfolding make_reply init_block
make_reply-IsReply id error block fits size = record {
  id_fits = fits;
  type_fits = omega arith;
  error_fits = code_of-lt error;
  block_fits = omega (arith, length-take block_size block);
}

module _ (junk : Reply) (args : CmdArgs) (m : Master) (a b : ℕ) (min1 min2 : MinionData)
    (chosen : Raid.choose_minions m.raid args.key ≡ ok (a, b))
    (first : Minions.get_minions_data m.manager a ≡ some min1)
    (second : Minions.get_minions_data m.manager b ≡ some min2) (valid : IsReply junk) (mn : Minion)
    (key_fits : args.key < range_of 8) (stack_fits : length mn.stack ≡ block_size)
    (beyond_fits : 8 + length mn.beyond ≡ block_size) where
  read_request-IsRequest : IsRequest (read_request args m)
  unfolding make_request init_block
  read_request-IsRequest = record {
    id_fits = omega arith;
    type_fits = omega arith;
    offset_fits = key_fits;
    block_fits = length-replicate block_size 0;
  }

  -- What the minion loads at the offset.
  abbrev loaded : ErrorCode × Block
  loaded = Storage.load mn.beyond mn.stack args.key mn.storage

  abbrev answer : List ℕ
  answer = reply_bytes (make_reply ((m.id_conter + 1) % 2 ^ 64) 1 loaded.0 (some loaded.1))

  abbrev rep : Reply
  rep = make_reply ((m.id_conter + 1) % 2 ^ 64) 1 loaded.0 (some loaded.1)

  whole_block : length loaded.1 ≡ block_size
  whole_block = length-load mn.beyond mn.stack args.key mn.storage stack_fits beyond_fits

  rep_valid : IsReply rep
  rep_valid = make_reply-IsReply _ loaded.0 loaded.1 (omega arith) whole_block

  rep_block : rep.block ≡ loaded.1
  unfolding make_reply init_block
  rep_block = take-length block_size loaded.1 (omega (arith, whole_block))

  minion_answers :
      (junk_request : Request) (from : SockAddr) (later : List Arrival)
      → mn.link.arrivals ≡ datagram from (request_head (read_request args m)) ∷ later
      → serve junk_request mn
        ≡ ok (
          tt,
          record mn {
            link = record mn.link {
              arrivals = later;
              client = from;
              sent = mn.link.sent ++ (from, answer) ∷ [];
            };
          },
        )
  unfolding make_request make_reply init_block server_send send_to
  minion_answers junk_request from later asks_minion =
      serve_read (read_request args m) junk_request mn from later read_request-IsRequest asks_minion
        refl
      ∙ rw (take-length reply_size answer (omega (arith, length-reply_bytes rep rep_valid)))

  -- A read from the device to the minion and back: the datagram that ReadCmd sends to the first
  -- minion makes it answer, and with that answer, after any number of time-outs, the device is
  -- sent a header without error and what the minion's storage has loaded, also where it found no
  -- block.
  pub read_round_trip :
      (junk_request : Request) (from by : SockAddr) (later : List Arrival) (k : ℕ)
      (rest : List Arrival)
      → mn.link.arrivals ≡ datagram from (request_head (read_request args m)) ∷ later
      → m.link.arrivals ≡ tries k (datagram by answer ∷ rest)
      → Takes (length args.reply + block_size) m
      → (serve junk_request mn
          ≡ ok (
            tt,
            record mn {
              link = record mn.link {
                arrivals = later;
                client = from;
                sent = mn.link.sent ++ (from, answer) ∷ [];
              };
            },
          ))
        × ((left : List IoResult) × (read_cmd junk args m
              ≡ ok (
                tt,
                wrote args.fd
                    (args.reply ++ loaded.1)
                    left
                    (asked (suc k) min1 (read_request args m) rest (counted m)),
              )))
  read_round_trip junk_request from by later k rest asks_minion answers takes =
      let (left, e) =
        read_cmd_first junk args m a b min1 min2 chosen first second valid k by rep rest rep_valid
          takes answers in
      (minion_answers junk_request from later asks_minion, (left, rw (← rep_block) e))
