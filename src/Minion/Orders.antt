-- ===== src/Minion/Orders.antt =====
-- Runs of the threads of a minion's process.
use mathlib.Core.Path.{subst}
use mathlib.Core.List.{append-nil, append_assoc, map-append}
use distributed_disk.Common.{
  ℕ, ◌≡◌, ◌≢◌, refl, ap, ◌∙◌, sym, none, List, [], ◌∷◌, ◌++◌, map, All, All-append, append-All,
  replicate, length-replicate,
}
use distributed_disk.Common.Dict.{lookup}
use distributed_disk.Net.{SockAddr}
use distributed_disk.Protocol.{block_size, Request}
use distributed_disk.Storage.Ownership.{IsStorage}
use distributed_disk.Storage.Contents.{contents}
use distributed_disk.Reactor.{Reactor, key_eq}
use distributed_disk.Reactor
use distributed_disk.Mediator.Registered.{IsMediator, reactor_handler_serves}
use distributed_disk.Minion.{parse_data, process_request}
use distributed_disk.Minion.Steps.{heard}
use distributed_disk.Minion.Tasks.{do_task-IsRun, parse_data-served}
use distributed_disk.Minion.Abstract.{IsServed, all_updated, all_datagrams}
use distributed_disk.Minion.Process.{Process, handle, work, Steps, done, step}

-- The second list is the first one, taken one at a time from any place.
pub data Picks {ℓ} {A : Type ℓ} : List A → List A → Type ℓ where
  none_left : Picks [] []
  pick :
      (before after : List A) (a : A) (rest : List A)
      → Picks (before ++ after) rest
      → Picks (before ++ a ∷ after) (a ∷ rest)

abbrev junk : Request
junk = record { id = 0; type = 0; offset = 0; block = replicate block_size 0 }

module _ {Proxy : Type 0} where
  joined : (s t u : Process Proxy) → Steps Proxy s t → Steps Proxy t u → Steps Proxy s u
  joined s _ u (done _) more = more
  joined s t u (step _ r _ first rest) more = step s r u first (joined r t u rest more)

  -- The handler of a registered descriptor parses everything that has come.
  parses_coming :
      (from : SockAddr) (fd : ℕ) (coming : List Request) (s : Process Proxy)
      → All IsServed coming
      → IsMediator s
      → lookup (fd, Reactor.Mode.read) s.0.map ≢ none
      → s.1.env.link.arrivals ≡ all_datagrams from coming
      → (t : Process Proxy) × Steps Proxy s t
        × (t.1.tasks ≡ s.1.tasks ++ map process_request coming)
        × (t.1.env.link.arrivals ≡ [])
        × (t.1.env.storage ≡ s.1.env.storage)
  unfolding all_datagrams
  parses_coming from fd [] s served v there arrived =
      (s, done s, sym (append-nil s.1.tasks), arrived, refl)
  parses_coming from fd (r ∷ coming) s served v there arrived =
      let env = heard s.1.env from (all_datagrams from coming) in
      let s' : Process Proxy =
        (s.0, record s.1 { tasks = s.1.tasks ++ process_request r ∷ []; env = env }) in
      let fits = length-replicate block_size 0 in
      let (p, found, serves, throws) =
        reactor_handler_serves (λ proxy fd m. parse_data junk m) fd s v there in
      let handled =
        serves (process_request r) env (
          parse_data-served r junk s.1.env from (all_datagrams from coming) served.0 fits
            arrived) in
      let (t, steps, tasks, none_coming, same) =
        parses_coming from fd coming s' served.1
          (record { own = v.own; served = v.served; handled = v.handled }) there refl in
      (
        t,
        step s s' t (handle junk fd s s' fits handled) steps,
        tasks ∙ append_assoc s.1.tasks (process_request r ∷ []) (map process_request coming),
        none_coming,
        same,
      )

  -- The tasks of requests can be run in any order.
  runs_in_order :
      (rs order : List Request) (s : Process Proxy)
      → Picks rs order
      → All IsServed rs
      → IsStorage s.1.env.storage
      → s.1.tasks ≡ map process_request rs
      → (t : Process Proxy) × Steps Proxy s t
        × (t.1.tasks ≡ [])
        × (t.1.env.link.arrivals ≡ s.1.env.link.arrivals)
        × (contents t.1.env.storage ≡ all_updated order (contents s.1.env.storage))
  unfolding all_updated
  runs_in_order _ _ s none_left served valid tasks = (s, done s, tasks, refl, refl)
  runs_in_order _ _ s (pick before after r rest picks) served valid tasks =
      let (first, r_and) = append-All IsServed before (r ∷ after) served in
      let (m', ran, run) = do_task-IsRun r s.1.env r_and.0 valid in
      let s' : Process Proxy = (
        s.0,
        record s.1 { tasks = map process_request before ++ map process_request after; env = m' },
      ) in
      let (t, steps, no_task, arrivals, blocks) =
        runs_in_order (before ++ after) rest s' picks
          (All-append IsServed before after first r_and.1) run.valid
          (sym (map-append process_request before after)) in
      let cut = tasks ∙ map-append process_request before (r ∷ after) in
      (
        t,
        step s s' t
            (work s.0 s.1 (map process_request before) (map process_request after)
              (process_request r) m' cut ran)
            steps,
        no_task,
        arrivals ∙ run.same_arrivals,
        blocks ∙ ap (all_updated rest) run.blocks,
      )

-- For every order of the requests that a peer has sent to an idle process, there is a run of its
-- threads that parses all the datagrams and runs all the tasks, and leaves the blocks as serving the
-- requests in that order does: of two writes to one offset, the first can be the one that is kept.
pub any_order :
    (Proxy : Type 0) (from : SockAddr) (fd : ℕ) (requests order : List Request) (s : Process Proxy)
    → Picks requests order
    → All IsServed requests
    → IsStorage s.1.env.storage
    → IsMediator s
    → lookup (fd, Reactor.Mode.read) s.0.map ≢ none
    → s.1.tasks ≡ []
    → s.1.env.link.arrivals ≡ all_datagrams from requests
    → (t : Process Proxy) × Steps Proxy s t
      × (t.1.tasks ≡ [])
      × (t.1.env.link.arrivals ≡ [])
      × (contents t.1.env.storage ≡ all_updated order (contents s.1.env.storage))
any_order Proxy from fd requests order s picks served valid v there idle arrived =
    let (t, parsing, tasks, none_coming, same) =
      parses_coming from fd requests s served v there arrived in
    let (u, running, no_task, arrivals, blocks) =
      runs_in_order requests order t picks served (subst IsStorage (sym same) valid)
        (tasks ∙ ap (λ l. l ++ map process_request requests) idle) in
    (
      u,
      joined s t u parsing running,
      no_task,
      arrivals ∙ none_coming,
      blocks ∙ ap (λ storage. all_updated order (contents storage)) same,
    )
