-- ===== src/Tests/Asking.antt =====
-- A master that asks its minions, and the minion that answers.
use distributed_disk.Common.{ℕ, ◌≡◌, ◌≢◌, refl, some, List, [], ◌∷◌, ◌++◌, arith}
use distributed_disk.Common.Exec.{ok}
use distributed_disk.Net.{Arrival, datagram, try_again, failed}
use distributed_disk.Protocol.{reply_bytes, make_reply}
use distributed_disk.Protocol.Layout.{request_head}
use distributed_disk.Storage.{empty}
use distributed_disk.Storage
use distributed_disk.Minion.{Minion, serve}
use distributed_disk.Nbd.{IoResult}
use distributed_disk.Master.{read_cmd, write_cmd}
use distributed_disk.Master.Asking.{tries, asked}
use distributed_disk.Master.Reads.{counted, read_request, wrote, read_cmd_first, read_cmd_second}
use distributed_disk.Master.Writes.{write_request, write_cmd_acknowledges, write_cmd-block}
use distributed_disk.Disk.{read_round_trip}
use distributed_disk.Tests.{
  zeros, length-zeros, here, request_of, some_reply, some_reply-IsReply, behind, length-behind,
  minion_of, first_minion, second_minion, master_of, args_of, chosen, found_first, found_second,
  read-Takes, write-Takes,
}

abbrev late_answer : List Arrival
late_answer = tries 2 (datagram here (reply_bytes some_reply) ∷ [])

read_cmd_first_example :
    (left : List IoResult) × (read_cmd some_reply args_of (master_of late_answer)
      ≡ ok (
        tt,
        wrote 5 (args_of.reply ++ zeros) left (
            asked 3 first_minion
              (read_request args_of (master_of late_answer))
              []
              (counted (master_of late_answer))),
      ))
read_cmd_first_example =
    read_cmd_first some_reply args_of (master_of late_answer) 0 1 first_minion second_minion chosen
      found_first found_second some_reply-IsReply 2 here some_reply [] some_reply-IsReply
      (read-Takes late_answer) refl

abbrev answer_of_second : List Arrival
answer_of_second = failed ∷ late_answer

read_cmd_second_example :
    (left : List IoResult) × (read_cmd some_reply args_of (master_of answer_of_second)
      ≡ ok (
        tt,
        wrote 5 (args_of.reply ++ zeros) left (
            asked 3 second_minion (read_request args_of (master_of answer_of_second)) [] (
              asked 1 first_minion
                (read_request args_of (master_of answer_of_second))
                late_answer
                (counted (master_of answer_of_second)))),
      ))
read_cmd_second_example =
    read_cmd_second some_reply args_of (master_of answer_of_second) 0 1 first_minion second_minion
      chosen found_first found_second some_reply-IsReply 2 here some_reply [] some_reply-IsReply
      (read-Takes answer_of_second) 0 refl

abbrev two_failures : List Arrival
two_failures = failed ∷ try_again ∷ failed ∷ []

failed-ne : failed ≢ try_again
failed-ne e = cc

write_cmd_acknowledges_example :
    (left : List IoResult) × (write_cmd some_reply some_reply args_of (master_of two_failures)
      ≡ ok (
        tt,
        wrote 5 args_of.reply left (
            asked 2 second_minion (write_request args_of (master_of two_failures)) [] (
              asked 1 first_minion
                (write_request args_of (master_of two_failures))
                (try_again ∷ failed ∷ [])
                (counted (master_of two_failures)))),
      ))
write_cmd_acknowledges_example =
    write_cmd_acknowledges some_reply some_reply args_of (master_of two_failures) 0 1 first_minion
      second_minion chosen found_first found_second 0 1 failed failed [] refl failed-ne failed-ne
      (write-Takes two_failures)

write_cmd-block_example :
    write_cmd some_reply some_reply args_of (master_of two_failures)
    ≡ write_cmd some_reply some_reply (record args_of { block = [] }) (master_of two_failures)
write_cmd-block_example = write_cmd-block some_reply some_reply args_of [] (master_of two_failures)

-- The minion that gets the master's request, and its answer in the master's socket.
abbrev asked_minion : Minion
asked_minion =
    minion_of empty (datagram here (request_head (read_request args_of (master_of []))) ∷ [])

abbrev its_answer : List ℕ
its_answer = reply_bytes (
    make_reply 1 1 (Storage.load behind zeros 8192 empty).0
      (some (Storage.load behind zeros 8192 empty).1))

read_round_trip_example :
    (serve (request_of 9) asked_minion
      ≡ ok (
        tt,
        record asked_minion {
          link = record asked_minion.link {
            arrivals = [];
            client = here;
            sent = (here, its_answer) ∷ [];
          };
        },
      ))
    × ((left : List IoResult) × (read_cmd some_reply args_of
            (master_of (datagram here its_answer ∷ []))
          ≡ ok (
            tt,
            wrote 5 (args_of.reply ++ (Storage.load behind zeros 8192 empty).1) left (
                asked 1 first_minion
                  (read_request args_of (master_of []))
                  []
                  (counted (master_of (datagram here its_answer ∷ [])))),
          )))
read_round_trip_example =
    read_round_trip some_reply args_of (master_of (datagram here its_answer ∷ [])) 0 1 first_minion
      second_minion chosen found_first found_second some_reply-IsReply asked_minion (omega arith)
      length-zeros length-behind (request_of 9) here here [] 0 [] refl refl
      (read-Takes (datagram here its_answer ∷ []))
