-- ===== src/Minion/Apart.antt =====
-- Requests to different offsets, and the threads of a minion's process.
use mathlib.Core.List.{Perm, Permᴰ, Pairwise}
use mathlib.Core.List.Perm
use mathlib.Core.List.Permᴰ
use distributed_disk.Common.{◌≢◌, List, nat_eq}
use distributed_disk.Protocol.{Request}
use distributed_disk.Minion.Process.{Process}

-- No two requests are about one offset.
abbrev pub AreApart : List Request → Type 0
AreApart requests = Pairwise (λ q r. q.offset ≢ r.offset) requests
