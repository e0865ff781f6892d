-- ===== src/Socket/Open/Connecting.antt =====
-- src/lthread_socket.c: lthread_connect, which calls connect until the connection stands or fails.
use lthread_concurrent.Prelude.{ℕ, ◌≤◌, ◌<◌, ◌≡◌, ◌≢◌, ◌⊎◌, Bool, true, false, some}
use lthread_concurrent.Intrusive.{Intrusive}
use lthread_concurrent.Poller.{write}
use lthread_concurrent.Socket.{
  Errno, eagain, einprogress, Answer, done, failed, Os, State, call, wait_fd,
}
use lthread_concurrent.Socket.Waiting.{Attends}

-- The connection is under way.
abbrev pub IsUnderWay : Errno → Type 0
IsUnderWay e = (e ≡ eagain) ⊎ (e ≡ einprogress)

module _ ⦃i : Intrusive⦄ (os : Os) (lt fd name : ℕ) where
  -- connect(2) leaves the lthread ready, and is under way only while `blocks` says that it may.
  pub record Dials : Type 1 where
    pub attends : Attends os lt fd write
    pub connect_ready :
        (s t : State os) (a : Answer ℕ)
        → attends.IsReady s
        → call os (λ k. os.connect k fd name) s ≡ (t, a)
        → attends.IsReady t × (attends.blocks t.kernel ≤ attends.blocks s.kernel)
    pub connect_under_way :
        (s t : State os) (e : Errno)
        → attends.IsReady s
        → call os (λ k. os.connect k fd name) s ≡ (t, failed e)
        → IsUnderWay e
        → 0 < attends.blocks t.kernel

  -- Calls of connect in a row that find the connection under way, after each of which the lthread waits
  pub data Pending : State os → State os → Type 0 where
    now : {s : State os} → Pending s s
    later :
        {s t u v : State os} (e : Errno) (is_open : Bool)
        → call os (λ k. os.connect k fd name) s ≡ (t, failed e)
        → IsUnderWay e
        → wait_fd os lt t fd write ≡ some (u, is_open)
        → Pending u v
        → Pending s v

  -- The last call of connect, and the result: the connection stands, or it fails.
  pub data Connects (s : State os) : State os → Bool → Type 0 where
    connected :
        {t : State os} (a : ℕ)
        → call os (λ k. os.connect k fd name) s ≡ (t, done a)
        → Connects s t true
    refused :
        {t : State os} (e : Errno)
        → call os (λ k. os.connect k fd name) s ≡ (t, failed e)
        → e ≢ eagain
        → e ≢ einprogress
        → Connects s t false
