-- ===== src/Ssh/Proxy/Relay.antt =====
-- The relay that acceptConnection starts: two goroutines of `forward`, one for each direction, and a
-- third that waits for both and closes the connections.
use gvisor_tap_vsock.Base.{ℕ, ◌+◌, ◌-◌, ◌≡◌, ◌⊎◌, Bool, true, false, [], ◌++◌, Text, take, drop}

-- Where a goroutine of `forward` is: in io.Copy, behind it, behind CloseWrite, or behind the deferred
-- complete.Done()
pub data Place : Type 0 where
  copying copied half_closed finished : Place

-- One direction: the bytes that its source has yet to give before its end, the bytes written to its
-- destination, where its goroutine is, and whether io.Copy has had an error
pub record Flow : Type 0 where
  pub unread : Text
  pub written : Text
  pub place : Place
  pub failed : Bool

-- A step of `forward` before complete.Done(). io.Copy moves some bytes, or ends at the end of its source
-- or with an error, which is not looked at; then CloseWrite is called, whose error is not either.
pub data FlowStep (f : Flow) : Flow → Type 0 where
  copies :
      (n : ℕ)
      → f.place ≡ copying
      → FlowStep f (record f { unread = drop n f.unread; written = f.written ++ take n f.unread })
  ends : f.place ≡ copying → f.unread ≡ [] → FlowStep f (record f { place = copied })
  fails : f.place ≡ copying → FlowStep f (record f { place = copied; failed = true })
  closes_write : f.place ≡ copied → FlowStep f (record f { place = half_closed })

-- The two directions, the counter of the WaitGroup, and whether each connection is closed
pub record Relay : Type 0 where
  pub outward : Flow
  pub back : Flow
  pub complete : ℕ
  pub src_closed : Bool
  pub dest_closed : Bool

abbrev pub finish : Flow → Flow
finish f = record f { place = finished }

-- complete.Done() counts down, and complete.Wait() holds the third goroutine until the counter is 0.
pub data RelayStep (r : Relay) : Relay → Type 0 where
  outward_step : (f : Flow) → FlowStep r.outward f → RelayStep r (record r { outward = f })
  back_step : (f : Flow) → FlowStep r.back f → RelayStep r (record r { back = f })
  outward_done :
      r.outward.place ≡ half_closed
      → RelayStep r (record r { outward = finish r.outward; complete = r.complete - 1 })
  back_done :
      r.back.place ≡ half_closed
      → RelayStep r (record r { back = finish r.back; complete = r.complete - 1 })
  closes_src : r.complete ≡ 0 → RelayStep r (record r { src_closed = true })
  closes_dest : r.src_closed ≡ true → RelayStep r (record r { dest_closed = true })

abbrev pub new_flow : Text → Flow
new_flow bytes = record { unread = bytes; written = []; place = copying; failed = false }

-- complete.Add(2)
abbrev pub new_relay : Text → Text → Relay
new_relay sent answered = record {
  outward = new_flow sent;
  back = new_flow answered;
  complete = 2;
  src_closed = false;
  dest_closed = false;
}

pub data RelayReach (sent answered : Text) : Relay → Type 0 where
  start : RelayReach sent answered (new_relay sent answered)
  next : {r r' : Relay} → RelayReach sent answered r → RelayStep r r' → RelayReach sent answered r'

-- What is written is a prefix of what is sent, and behind io.Copy the whole of it, without an error.
pub record IsFaithful (sent : Text) (f : Flow) : Type 0 where
  pub prefix : f.written ++ f.unread ≡ sent
  pub whole : (f.place ≡ copying) ⊎ (f.failed ≡ true) ⊎ (f.unread ≡ [])

-- What a direction adds to the counter
abbrev pub pending : Place → ℕ
pending finished = 0
pending _ = 1

-- The counter is the number of directions that are not finished, and 0 once a connection is closed.
pub record IsValid (sent answered : Text) (r : Relay) : Type 0 where
  pub outward : IsFaithful sent r.outward
  pub back : IsFaithful answered r.back
  pub counted : r.complete ≡ pending r.outward.place + pending r.back.place
  pub src_after : (r.src_closed ≡ false) ⊎ (r.complete ≡ 0)
  pub dest_after : (r.dest_closed ≡ false) ⊎ (r.complete ≡ 0)

-- How a direction is left: finished, the other side has been written what was sent up to some point,
-- and all of it unless io.Copy had an error.
pub record Delivered (sent : Text) (f : Flow) : Type 0 where
  pub over : f.place ≡ finished
  pub prefix : f.written ++ f.unread ≡ sent
  pub all : (f.failed ≡ true) ⊎ (f.written ≡ sent)
