-- ===== src/Tcp.antt =====
-- src/tcp/tcpclient.cpp: connecting to an address. For a domain one attempt is spawned for each of
-- its addresses, and they race: the coroutines share a result and a timer that no time ends. A
-- socket is the address that it is connected to.
pub mod Winner
pub mod Outcomes
mod Examples
use cppsong.Base.{
  ℕ, zero, suc, Bool, true, false, List, [], ◌∷◌, ◌++◌, ◌≡◌, Bytes, Option, none, some,
  if◌then◌else◌,
}
use cppsong.Base.Outcome.{Outcome, ok, throw, ◌>>=◌, connect_failed}
use cppsong.Ip.{Host, domain_name, ip_address, Address}

-- Where the coroutine of `connect_address` stands: at `timer->async_wait`, or behind it.
pub data Main (Ip : Type 0) : Type 0 where
  waiting : Main Ip
  connected : Ip → Main Ip
  -- "all tries to connect address fail"
  all_failed : Main Ip

pub record Race (Ip : Type 0) : Type 0 where
  -- The attempts whose `async_connect` has not yet completed.
  pub attempts : List Ip
  pub result : Option Ip
  pub timer_cancelled : Bool
  pub main : Main Ip

module _ {Ip : Type 0} where
  -- The loop of `co_spawn`, up to the wait.
  abbrev pub spawn_attempts : List Ip → Race Ip
  spawn_attempts ips = record {
    attempts = ips;
    result = none;
    timer_cancelled = false;
    main = waiting;
  }

  -- `connect_address_work` behind an `async_connect` that succeeds; behind one that throws it logs.
  unfoldable pub attempt_succeeded : Ip → Race Ip → Race Ip
  attempt_succeeded ip race = elim race.result [
    | some socket ↦ race
    | none ↦ record race { result = some ip; timer_cancelled = true }
  ]

  -- `connect_address` behind its wait.
  unfoldable pub main_resumed : Race Ip → Race Ip
  main_resumed race = elim race.result [
    | none ↦ record race { main = all_failed }
    | some socket ↦ record race { main = connected socket }
  ]

-- Whether an address accepts a connection is the network's choice, once for all.
module _ {Ip : Type 0} (accepts : Ip → Bool) where
  -- `connect_ip`
  unfoldable pub connect_ip : Ip → Outcome Ip
  connect_ip ip = if accepts ip then ok ip else throw connect_failed

  -- One step of one coroutine, in any order.
  pub data Step (race : Race Ip) (next : Race Ip) : Type 0 where
    succeeds :
        (before after : List Ip) (ip : Ip)
        → race.attempts ≡ before ++ ip ∷ after
        → accepts ip ≡ true
        → next ≡ attempt_succeeded ip (record race { attempts = before ++ after })
        → Step race next
    fails :
        (before after : List Ip) (ip : Ip)
        → race.attempts ≡ before ++ ip ∷ after
        → accepts ip ≡ false
        → next ≡ record race { attempts = before ++ after }
        → Step race next
    resumes :
        race.timer_cancelled ≡ true
        → race.main ≡ waiting
        → next ≡ main_resumed race
        → Step race next

  -- Any number of steps, which are counted.
  pub data Steps (start : Race Ip) : ℕ → Race Ip → Type 0 where
    here : Steps start zero start
    then_step : {n : ℕ} {s t : Race Ip} → Steps start n s → Step s t → Steps start (suc n) t

  -- What `connect_address` has come to when it first waits: a socket, or a race.
  pub data Connecting : Type 0 where
    direct : Ip → Connecting
    racing : Race Ip → Connecting

  -- `resolve` is `DnsCenter::resolve`.
  unfoldable pub connect_address : (Bytes → Outcome (List Ip)) → Address Ip → Outcome Connecting
  unfolding connect_ip
  connect_address resolve address = elim address.address [
    | ip_address value ↦ (do socket ← connect_ip value; ok (direct socket))
    | domain_name value ↦ (do ips ← resolve value; ok (racing (spawn_attempts ips)))
  ]
