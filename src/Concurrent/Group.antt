-- ===== src/Concurrent/Group.antt =====
-- golang.org/x/sync/singleflight, a parameter, with what its documentation promises: "Do executes
-- and returns the results of the given function, making sure that only one execution is in-flight
-- for a given key at a time. If a duplicate comes in, the duplicate caller waits for the original to
-- complete and receives the same results."
use cache_server_go.Base.{◌≡◌, ◌≢◌, ◌⊎◌, Bool, true, false, Option, some, Bytes}

-- What `Do` makes of a caller: it runs its function, or it waits for a call under way. A ticket
-- names the call.
pub data Role (Ticket : Type 0) : Type 0 where
  leads : Ticket → Role Ticket
  waits : Ticket → Role Ticket

-- A caller joins; the one that leads finishes its ticket with its result, and the others find it
-- there. A call is open while it is under way; it is shared if others wait for it.
pub record Group : Type 1 where
  pub Ticket : Type 0
  pub Table : Type 0
  pub key_of : Ticket → Bytes
  pub join : Bytes → Table → Role Ticket × Table
  pub finish : Ticket → Option Bytes → Table → Table
  pub result : Ticket → Table → Option (Option Bytes)
  pub is_open : Ticket → Table → Bool
  pub is_shared : Ticket → Table → Bool

module _ (g : Group) where
  open g use {Ticket, Table, key_of, join, finish, result, is_open}

  pub record GroupLaws : Type 0 where
    -- One execution for a key at a time.
    pub one_open :
        (m n : Ticket) (t : Table)
        → is_open m t ≡ true
        → is_open n t ≡ true
        → key_of m ≡ key_of n
        → m ≡ n
    -- Whoever leads has a new call of the key; whoever waits, one of the key under way.
    pub leads_new :
        (key : Bytes) (n : Ticket) (t : Table)
        → (join key t).0 ≡ leads n
        → (key_of n ≡ key) × (is_open n t ≡ false) × (is_open n (join key t).1 ≡ true)
    pub waits_open :
        (key : Bytes) (n : Ticket) (t : Table)
        → (join key t).0 ≡ waits n
        → (key_of n ≡ key) × (is_open n (join key t).1 ≡ true)
    -- A caller opens nothing but the call that it leads, and closes none.
    pub open_of_join :
        (key : Bytes) (m : Ticket) (t : Table)
        → is_open m (join key t).1 ≡ true
        → ((join key t).0 ≡ leads m) ⊎ (is_open m t ≡ true)
    pub join-open :
        (key : Bytes) (m : Ticket) (t : Table)
        → is_open m t ≡ true
        → is_open m (join key t).1 ≡ true
    -- The end of an open call closes it, with its result, and no other.
    pub finish-result :
        (n : Ticket) (r : Option Bytes) (t : Table)
        → is_open n t ≡ true
        → result n (finish n r t) ≡ some r
    pub open_of_finish :
        (m n : Ticket) (r : Option Bytes) (t : Table)
        → is_open n t ≡ true
        → is_open m (finish n r t) ≡ true
        → (m ≢ n) × (is_open m t ≡ true)
    pub finish-open :
        (m n : Ticket) (r : Option Bytes) (t : Table)
        → is_open n t ≡ true
        → is_open m t ≡ true
        → (m ≡ n) ⊎ (is_open m (finish n r t) ≡ true)
    -- A result is that of the call's end, and stays.
    pub result_of_join :
        (key : Bytes) (m : Ticket) (t : Table) → result m (join key t).1 ≡ result m t
    pub result_of_finish :
        (m n : Ticket) (r : Option Bytes) (t : Table)
        → ((m ≡ n) × (result m (finish n r t) ≡ some r)) ⊎ (result m (finish n r t) ≡ result m t)
