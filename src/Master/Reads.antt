-- ===== src/Master/Reads.antt =====
-- ReadCmd: which minion's block reaches the device, and when nothing does.
use mathlib.Core.List.{append_assoc, map-append}
use distributed_disk.Common.{
  ℕ, suc, ◌+◌, ◌≤◌, ◌%◌, ◌^◌, ◌≡◌, refl, ap, sym, ◌∙◌, none, some, List, ◌∷◌, ◌++◌, arith, length,
  All,
}
use distributed_disk.Common.Exec.{ok}
use distributed_disk.Protocol.{
  block_size, Request, Reply, IsReply, reply_bytes, make_request, translate_request,
}
use distributed_disk.Raid
use distributed_disk.Minions.{MinionData}
use distributed_disk.Minions
use distributed_disk.Net.{SockAddr, Arrival, datagram, failed}
use distributed_disk.Nbd.{IoResult, on_fd, CmdArgs}
use distributed_disk.Nbd.Loops.{Moves, write_all_total}
use distributed_disk.Master.{
  Master, choose_minions, get_minions_data, translate, reply, on_stream, send_block, read_cmd,
}
use distributed_disk.Master.Asking.{
  tries, asked, communicate_minion_answer, communicate_minion_failure,
}

-- The device's socket takes what is written, in at most `n` calls that each move something.
pub record Takes (n : ℕ) (m : Master) : Type 0 where
  pub moves : All Moves m.stream.writes
  pub enough : n ≤ length m.stream.writes

abbrev pub wrote : ℕ → List ℕ → List IoResult → Master → Master
wrote fd buf left m = record m {
  stream = record m.stream { written = m.stream.written ++ on_fd fd buf; writes = left };
}

pub reply_total :
    (fd k : ℕ) (buf : List ℕ) (m : Master)
    → Takes (length buf + k) m
    → (left : List IoResult) × (reply fd buf m ≡ ok (tt, wrote fd buf left m))
      × Takes k (wrote fd buf left m)
unfolding reply on_stream
reply_total fd k buf m t =
    let (left, e, mv, l) = write_all_total fd buf m.stream t.moves (omega (arith, t.enough)) in
    (left, rw e, record { moves = mv; enough = omega (arith, t.enough) })

-- The header of the reply, then the block, as one run of bytes.
send_block_total :
    (args : CmdArgs) (rep : Reply) (m : Master)
    → Takes (length args.reply + length rep.block) m
    → (left : List IoResult) × (send_block args rep m
        ≡ ok (tt, wrote args.fd (args.reply ++ rep.block) left m))
unfolding send_block
send_block_total args rep m t =
    let (left1, e1, t1) = reply_total args.fd (length rep.block) args.reply m t in
    let (left2, e2, t2) =
      reply_total args.fd 0 rep.block (wrote args.fd args.reply left1 m)
        (record { moves = t1.moves; enough = omega (arith, t1.enough) }) in
    (
      left2,
      rw e1 (
          e2
          ∙ ap (λ w. ok (tt, record m { stream = record m.stream { written = w; writes = left2 } }))
              (append_assoc m.stream.written _ _
                ∙ ap (◌++◌ m.stream.written) (sym (map-append _ args.reply rep.block)))),
    )

-- The request that goes out, and the master with the counter moved on.
abbrev pub read_request : CmdArgs → Master → Request
read_request args m = make_request ((m.id_conter + 1) % 2 ^ 64) 1 args.key none

abbrev pub counted : Master → Master
counted m = record m { id_conter = (m.id_conter + 1) % 2 ^ 64 }

module _ (junk : Reply) (args : CmdArgs) (m : Master) (a b : ℕ) (min1 min2 : MinionData)
    (chosen : Raid.choose_minions m.raid args.key ≡ ok (a, b))
    (first : Minions.get_minions_data m.manager a ≡ some min1)
    (second : Minions.get_minions_data m.manager b ≡ some min2) (valid : IsReply junk) where
  module _ (k : ℕ) (from : SockAddr) (rep : Reply) (rest : List Arrival) (reply_valid : IsReply rep)
      (takes : Takes (length args.reply + block_size) m) where
    -- Where two minions are chosen and known, the device's socket takes what is written, and the
    -- first minion answers after any number of time-outs, the device gets the header of its reply
    -- and the block of the answer; that minion was sent one more datagram than time-outs.
    pub read_cmd_first :
        m.link.arrivals ≡ tries k (datagram from (reply_bytes rep) ∷ rest)
        → (left : List IoResult) × (read_cmd junk args m
            ≡ ok (
              tt,
              wrote args.fd
                  (args.reply ++ rep.block)
                  left
                  (asked (suc k) min1 (read_request args m) rest (counted m)),
            ))
    unfolding read_cmd choose_minions get_minions_data translate translate_request
    read_cmd_first arrived =
        let (left, e) =
          send_block_total args rep (asked (suc k) min1 (read_request args m) rest (counted m))
            (record {
              moves = takes.moves;
              enough = omega (arith, takes.enough, reply_valid.block_fits);
            }) in
        (
          left,
          rw
              (
                chosen,
                first,
                communicate_minion_answer k min1 (read_request args m) junk rest (counted m) from
                    rep arrived reply_valid valid,
              )
              e,
        )

    -- Where the first minion fails and the second one answers, each after any number of time-outs,
    -- the second one's block goes to the device instead.
    pub read_cmd_second :
        (j : ℕ)
        → m.link.arrivals ≡ tries j (failed ∷ tries k (datagram from (reply_bytes rep) ∷ rest))
        → (left : List IoResult) × (read_cmd junk args m
            ≡ ok (
              tt,
              wrote args.fd (args.reply ++ rep.block) left (
                  asked (suc k) min2 (read_request args m) rest (
                    asked
                      (suc j)
                      min1
                      (read_request args m)
                      (tries k (datagram from (reply_bytes rep) ∷ rest))
                      (counted m))),
            ))
    unfolding read_cmd choose_minions get_minions_data translate translate_request
    read_cmd_second j arrived =
        let answers = tries k (datagram from (reply_bytes rep) ∷ rest) in
        let (left, e) =
          send_block_total args rep
            (asked (suc k) min2 (read_request args m) rest
              (asked (suc j) min1 (read_request args m) answers (counted m)))
            (record {
              moves = takes.moves;
              enough = omega (arith, takes.enough, reply_valid.block_fits);
            }) in
        (
          left,
          rw
              (
                chosen,
                first,
                communicate_minion_failure j min1 (read_request args m) junk answers (counted m)
                    arrived,
                second,
                communicate_minion_answer k min2 (read_request args m) junk rest
                    (asked (suc j) min1 (read_request args m) answers (counted m)) from rep refl
                    reply_valid valid,
              )
              e,
        )

  -- Both minions fail: nothing is written to the device, which waits for its reply for good.
  pub read_cmd_lost :
      (j k : ℕ) (rest : List Arrival)
      → m.link.arrivals ≡ tries j (failed ∷ tries k (failed ∷ rest))
      → read_cmd junk args m
        ≡ ok (
          tt,
          asked
              (suc k)
              min2
              (read_request args m)
              rest
              (asked (suc j) min1 (read_request args m) (tries k (failed ∷ rest)) (counted m)),
        )
  unfolding read_cmd choose_minions get_minions_data translate translate_request
  read_cmd_lost j k rest arrived =
      let answers = tries k (failed ∷ rest) in
      rw (
        chosen,
        first,
        communicate_minion_failure j min1 (read_request args m) junk answers (counted m) arrived,
        second,
        communicate_minion_failure k min2 (read_request args m) junk rest
            (asked (suc j) min1 (read_request args m) answers (counted m)) refl,
      )
