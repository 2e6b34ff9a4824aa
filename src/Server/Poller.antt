-- ===== src/Server/Poller.antt =====
-- runPoller and the interval of Run in server/server.go.
pub mod Changed
use interlock_old.Prelude.{
  ℕ, String, Bool, true, false, not, ◌++◌, List, [], ◌∷◌, Option, none, some, ◌==◌, ltb, map,
  if◌then◌else◌,
}
use interlock_old.Prelude.Int.{ℤ, pos, negsuc}
use interlock_old.Go.Outcome.{Outcome, ok, err, panic, ◌>>=◌}
use interlock_old.Go.Sort.{sort, text_ord, nat_ord}
use interlock_old.Platform.{Container, Message}

unfoldable pub container_ids : List Container → List String
container_ids cs = map (λ c. c.id) cs

unfoldable pub public_ports_of : List Container → List ℕ
public_ports_of [] = []
public_ports_of (c ∷ cs) = c.public_ports ++ public_ports_of cs

-- What the poller sends; `now` is the time, printed.
unfoldable pub restart_message : String → Message
restart_message now = record {
  status = "interlock-restart";
  action = "";
  type = "";
  id = now;
  attributes = [];
}

module _ (digest : List String → List ℕ → String) where
  -- `digest` is the hexadecimal SHA-256 of the two lists in JSON.
  unfoldable pub sum_of : List Container → String
  unfolding sort container_ids public_ports_of
  sum_of cs = digest (sort (container_ids cs)) (sort (public_ports_of cs))

  -- A round of the ticker, from `containerHash` to `containerHash`, with the message that it sends. An
  -- error of the listing is logged.
  unfoldable pub poll :
      String → Outcome (List Container) → String → Outcome (Option Message × String)
  unfolding sum_of restart_message
  poll now (ok cs) hash =
      if sum_of cs == hash then ok (none, hash) else ok (some (restart_message now), sum_of cs)
  poll now (err e) hash = ok (none, hash)
  poll now panic hash = panic

-- Nanoseconds: defaultPollInterval
abbrev pub default_poll_interval : ℕ
default_poll_interval = 2000000000

-- What Run starts the poller with, and the PollInterval that the configuration is left with.
pub record Interval : Type 0 where
  pub config : String
  pub every : ℕ

-- The default where the interval is shorter; -1 - n is short.
unfoldable pub started_with : String → ℤ → Interval
started_with text (pos n) =
    if ltb n default_poll_interval
    then record { config = "2s"; every = default_poll_interval }
    else record { config = text; every = n }
started_with text (negsuc n) = record { config = "2s"; every = default_poll_interval }

-- The interval of the poller that Run starts, in nanoseconds; none without a PollInterval.
-- `parse_duration` is time.ParseDuration.
unfoldable pub poll_interval : (String → Outcome ℤ) → String → Outcome (Option Interval)
unfolding started_with
poll_interval parse_duration text =
    if text == "" then ok none else do d ← parse_duration text; ok (some (started_with text d))
