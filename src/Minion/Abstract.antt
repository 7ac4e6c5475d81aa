-- ===== src/Minion/Abstract.antt =====
-- A minion as its master sees it: a map from offsets to blocks that answers requests.
use distributed_disk.Common.{
  refl, ap, arith, ℕ, ◌≡◌, ◌⊎◌, Option, none, some, List, [], ◌∷◌, ◌++◌, nat_eq, ◌==◌,
  if◌then◌else◌, map, take,
}
use distributed_disk.Common.Exec.{Exec, ◌>>=◌, pure}
use distributed_disk.Net.{SockAddr, Arrival, datagram}
use distributed_disk.Protocol.{
  Block, Request, IsRequest, ErrorCode, no_error, block_not_founed, make_reply, reply_header,
}
use distributed_disk.Protocol.Layout.{request_head, reply_head}
use distributed_disk.Minion.{Minion, serve}

abbrev pub Blocks : Type 0
Blocks = ℕ → Option Block

-- A read or a write request that a master can send.
pub record IsServed (r : Request) : Type 0 where
  pub valid : IsRequest r
  pub known : (r.type ≡ 1) ⊎ (r.type ≡ 2)

-- Whether there is a block to read
unfoldable pub found_error : Option Block → ErrorCode
found_error none = block_not_founed
found_error (some b) = no_error

-- What a request does to the blocks, and the header of its answer.
unfoldable pub updated : Request → Blocks → Blocks
updated r blocks j =
    if r.type == 2 then if r.offset == j then some r.block else blocks j else blocks j

unfoldable pub error_of : Request → Blocks → ErrorCode
error_of r blocks = if r.type == 1 then found_error (blocks r.offset) else no_error

unfoldable pub answer_of : Request → Blocks → List ℕ
answer_of r blocks = reply_head (make_reply r.id r.type (error_of r blocks) none)

-- The same for requests in their order
unfoldable pub all_updated : List Request → Blocks → Blocks
all_updated [] blocks = blocks
all_updated (r ∷ rest) blocks = all_updated rest (updated r blocks)

unfoldable pub answers_of : List Request → Blocks → List (List ℕ)
answers_of [] blocks = []
answers_of (r ∷ rest) blocks = answer_of r blocks ∷ answers_of rest (updated r blocks)

-- The datagrams of a request: its header and, for a write, the block.
unfoldable pub datagrams : SockAddr → Request → List Arrival
datagrams from r =
    datagram from (request_head r) ∷ (if r.type == 2 then datagram from r.block ∷ [] else [])

unfoldable pub all_datagrams : SockAddr → List Request → List Arrival
all_datagrams from [] = []
all_datagrams from (r ∷ rest) = datagrams from r ++ all_datagrams from rest

-- The minion serves one request after the other; what is in the memory that each is read into is given.
unfoldable pub serve_all : List Request → Exec Minion (Unit {0})
serve_all [] = pure tt
serve_all (junk ∷ rest) = do served ← serve junk; serve_all rest

-- Whom the minion has answered, with the headers of the answers
unfoldable pub headers : List (SockAddr × List ℕ) → List (SockAddr × List ℕ)
headers sent = map (λ s. (s.0, take reply_header s.1)) sent

-- One more request behind the others
pub all_updated-append :
    (rs : List Request) (r : Request) (blocks : Blocks)
    → all_updated (rs ++ r ∷ []) blocks ≡ updated r (all_updated rs blocks)
unfolding all_updated
all_updated-append [] r blocks = refl
all_updated-append (q ∷ rs) r blocks = all_updated-append rs r (updated q blocks)

pub answers_of-append :
    (rs : List Request) (r : Request) (blocks : Blocks)
    → answers_of (rs ++ r ∷ []) blocks
      ≡ answers_of rs blocks ++ answer_of r (all_updated rs blocks) ∷ []
unfolding answers_of all_updated
answers_of-append [] r blocks = refl
answers_of-append (q ∷ rs) r blocks =
    ap (◌∷◌ (answer_of q blocks)) (answers_of-append rs r (updated q blocks))

-- Where no datagram is left, no request is.
pub no_more : (from : SockAddr) (rs : List Request) → all_datagrams from rs ≡ [] → rs ≡ []
unfolding all_datagrams datagrams
no_more from [] e = refl
no_more from (r ∷ rs) e = absurd (ground arith)
