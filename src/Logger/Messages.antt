-- ===== src/Logger/Messages.antt =====
-- Which messages reach the log file.
use mathlib.Core.List.{append_assoc, append-nil}
use distributed_disk.Common.{
  ◌≡◌, refl, ap, sym, ◌∙◌, String, false, List, [], ◌∷◌, ◌++◌, leb, Bool-cases, inl, inr,
}
use distributed_disk.Queue.{fifo, push}
use distributed_disk.Logger.{
  MessageLevel, level_number, Place, testing, Logger, log, Step, write_holder, leave, take_message,
  call_log, stop_message, Steps, done, step,
}

-- The lines that are on their way: the holder, where it has not been written, and the queue.
abbrev pub held : Place → String → List String
held testing holder = holder ∷ []
held _ holder = []

abbrev pub on_the_way : Logger → List String
on_the_way l = held l.place l.holder ++ l.message_q

-- The file and the lines on their way, which `more` has been added to.
abbrev pub Grows : Logger → Logger → List String → Type 0
Grows l m more = m.log_fd ++ on_the_way m ≡ (l.log_fd ++ on_the_way l) ++ more

push-Grows :
    (l : Logger) (message : String)
    → Grows l (record l { message_q = push fifo message l.message_q }) (message ∷ [])
unfolding push
push-Grows l message =
    ap (λ q. l.log_fd ++ q) (sym (append_assoc (held l.place l.holder) l.message_q (message ∷ [])))
    ∙ sym (append_assoc l.log_fd (on_the_way l) (message ∷ []))

log-Grows :
    (l : Logger) (level : MessageLevel) (message : String)
    → (more : List String) × Grows l (log level message l) more
      × ((log level message l).stop_flag ≡ l.stop_flag)
unfolding log
log-Grows l level message =
    elim (Bool-cases (leb (level_number level) (level_number l.current_level))) [
      | inl kept ↦ rw kept (message ∷ [], push-Grows l message, refl)
      | inr dropped ↦ rw dropped ([], sym (append-nil _), refl)
    ]

-- One step of a logger that is not asked to stop.
Step-lines :
    (l m : Logger)
    → Step l m
    → l.stop_flag ≡ false
    → (more : List String) × Grows l m more × (m.stop_flag ≡ false)
Step-lines l m (write_holder _ here on) on' = (
  [],
  append_assoc l.log_fd (l.holder ∷ []) l.message_q
      ∙ ap (λ p. l.log_fd ++ (held p l.holder ++ l.message_q)) (sym here)
      ∙ sym (append-nil _),
  on',
)
Step-lines l m (leave _ here off) on' = absurd cc
Step-lines l m (take_message _ message rest here front) on' = (
  [],
  ap (λ q. l.log_fd ++ q) (sym front)
      ∙ ap (λ p. l.log_fd ++ (held p l.holder ++ l.message_q)) (sym here)
      ∙ sym (append-nil _),
  on',
)
Step-lines l m (call_log _ level message) on' =
    let (more, grows, same) = log-Grows l level message in (more, grows, same ∙ on')
Step-lines l m (stop_message _ off) on' = absurd cc

-- Until a stop is requested, whatever the steps of the writing thread and the calls of Log, nothing
-- is lost and the order is kept: the file followed by the lines on their way only grows at its end.
pub Steps-lines :
    (l m : Logger) → Steps l m → l.stop_flag ≡ false → (more : List String) × Grows l m more
Steps-lines l m (done _) on = ([], sym (append-nil _))
Steps-lines l m (step _ k _ first later) on =
    let (more, grows, on') = Step-lines l k first on in
    let (rest, after) = Steps-lines k m later on' in
    (more ++ rest, after ∙ ap (λ q. q ++ rest) grows ∙ append_assoc _ more rest)
