-- ===== src/Dispatcher.antt =====
-- dispatcher/dispatcher_callback.hpp and dispatcher_callback_impl.hpp (dispatcher_callback/ holds the
-- same files): dispatchers and callbacks point at each other. The objects that are alive are in two
-- stores, and a call through a pointer to a dead one is a fault. What an observer does when it is
-- notified is recorded and changes nothing here.
pub mod Linked
pub mod Making
pub mod Subscribing
pub mod Unsubscribing
pub mod Deaths
pub mod Twice
use distributed_disk.Common.{
  ℕ, Option, none, some, List, [], ◌∷◌, ◌++◌, nat_eq, ◌==◌, if◌then◌else◌,
}
use distributed_disk.Common.Exec.{Outcome, ok, fault, and_then, dangling_pointer}
use distributed_disk.Common.Dict.{lookup, insert, erase}

pub record Objects (Event : Type 0) : Type 0 where
  -- CallbackBase: m_dispatcher, which may be NULL
  pub callbacks : List (ℕ × Option ℕ)
  -- Dispatcher: m_subscribers
  pub dispatchers : List (ℕ × List ℕ)
  -- the calls of m_notify_func and of m_dispatcher_death_func, oldest first
  pub notified : List (ℕ × Event)
  pub told_of_death : List ℕ

abbrev pub alive : {A : Type 0} → Option A → Outcome A
alive none = fault dangling_pointer
alive (some a) = ok a

-- std::list::remove
unfoldable pub remove : ℕ → List ℕ → List ℕ
remove c [] = []
remove c (b ∷ bs) = let rest = remove c bs in if b == c then rest else b ∷ rest

module _ {Event : Type 0} where
  -- CallbackBase::CallbackBase and Dispatcher::Dispatcher
  unfoldable pub make_callback : ℕ → Objects Event → Objects Event
  make_callback c w = record w { callbacks = insert c none w.callbacks }

  unfoldable pub make_dispatcher : ℕ → Objects Event → Objects Event
  make_dispatcher d w = record w { dispatchers = insert d [] w.dispatchers }

  -- CallbackBase::SetDispatcher
  unfoldable pub set_dispatcher : Option ℕ → ℕ → Objects Event → Outcome (Objects Event)
  set_dispatcher d c w =
      and_then (alive (lookup c w.callbacks))
        λ old. ok (record w { callbacks = insert c d w.callbacks })

  -- Dispatcher::Subscribe
  unfoldable pub subscribe : ℕ → ℕ → Objects Event → Outcome (Objects Event)
  unfolding set_dispatcher
  subscribe d c w = and_then (alive (lookup d w.dispatchers)) λ subscribers.
      set_dispatcher (some d) c
        (record w { dispatchers = insert d (c ∷ subscribers) w.dispatchers })

  -- Callback::Notify
  unfoldable pub notify : ℕ → Event → Objects Event → Outcome (Objects Event)
  notify c event w =
      and_then (alive (lookup c w.callbacks))
        λ d. ok (record w { notified = w.notified ++ (c, event) ∷ [] })

  -- The loop of Dispatcher::Broadcast, and Broadcast
  unfoldable pub notify_all : List ℕ → Event → Objects Event → Outcome (Objects Event)
  unfolding notify
  notify_all [] event w = ok w
  notify_all (c ∷ subscribers) event w =
      and_then (notify c event w) (λ v. notify_all subscribers event v)

  unfoldable pub broadcast : ℕ → Event → Objects Event → Outcome (Objects Event)
  unfolding notify_all
  broadcast d event w =
      and_then (alive (lookup d w.dispatchers)) λ subscribers. notify_all subscribers event w

  -- Dispatcher::UnSubscribe
  unfoldable pub unsubscribe : ℕ → ℕ → Objects Event → Outcome (Objects Event)
  unfolding remove
  unsubscribe d c w =
      and_then (alive (lookup d w.dispatchers))
        λ subscribers. ok (record w { dispatchers = insert d (remove c subscribers) w.dispatchers })

  -- CallbackBase::CallBackDeath
  unfoldable pub callback_death : Option ℕ → ℕ → Objects Event → Outcome (Objects Event)
  unfolding unsubscribe
  callback_death none c w = ok w
  callback_death (some d) c w = unsubscribe d c w

  -- CallbackBase::~CallbackBase
  unfoldable pub delete_callback : ℕ → Objects Event → Outcome (Objects Event)
  unfolding callback_death
  delete_callback c w =
      and_then (alive (lookup c w.callbacks))
        λ d. and_then (callback_death d c w) λ v. ok (record v { callbacks = erase c v.callbacks })

  -- The loop of Dispatcher::~Dispatcher: DispatcherDeath, then SetDispatcher(NULL)
  unfoldable pub tell_all : List ℕ → Objects Event → Outcome (Objects Event)
  unfolding set_dispatcher
  tell_all [] w = ok w
  tell_all (c ∷ subscribers) w =
      and_then (set_dispatcher none c (record w { told_of_death = w.told_of_death ++ c ∷ [] }))
        (λ v. tell_all subscribers v)

  -- Dispatcher::~Dispatcher
  unfoldable pub delete_dispatcher : ℕ → Objects Event → Outcome (Objects Event)
  unfolding tell_all
  delete_dispatcher d w = and_then (alive (lookup d w.dispatchers)) λ subscribers.
      and_then (tell_all subscribers w) λ v. ok (record v { dispatchers = erase d v.dispatchers })
