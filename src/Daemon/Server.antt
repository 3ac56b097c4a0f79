-- ===== src/Daemon/Server.antt =====
-- internal/daemon/daemon.go: the state of `Server` and the parts of `start`, `stop`, `refresh` and
-- `clear` that each hold its lock once; and `Build.Matches` and `Request.Validate` of
-- internal/ipc/proto.go. A tunnel, and the context it runs in, is named by a number.
use encedo_wg_hsm.Common.{
  ℕ, ◌≡◌, Bool, true, false, not, ◌&&◌, Option, none, some, List, [], ◌∷◌, ◌++◌, Bytes, bytes_eq,
  is_empty, ◌==◌, if◌then◌else◌, Result, ok, err, ◌>>◌, fail_if,
}

-- `ipc.Build`
pub record Build : Type 0 where
  pub release : Bytes
  pub descr : ℕ

unfoldable pub build_matches : Build → Build → Bool
build_matches b other = bytes_eq b.release other.release && b.descr == other.descr

pub data Op : Type 0 where
  start stop refresh whoami : Op
  unknown : Bytes → Op

-- `ipc.Request`, without the public keys, which `Open` alone reads.
pub record Request : Type 0 where
  pub op : Op
  pub build : Build
  pub hem_url : Bytes
  pub identity : Bytes
  pub peer : Bytes
  pub token : Bytes

pub data Invalid : Type 0 where
  no_url no_identity no_token no_build no_refresh_token : Invalid
  unknown_op : Bytes → Invalid

-- The cases of the switch of `Validate`.
abbrev pub validate_op : Op → Request → Result Invalid (Unit {0})
validate_op Op.start r = do
  fail_if (is_empty r.hem_url) no_url
  fail_if (is_empty r.identity) no_identity
  fail_if (is_empty r.token) no_token
  fail_if (is_empty r.build.release) no_build
validate_op Op.refresh r = fail_if (is_empty r.token) no_refresh_token
validate_op Op.stop r = ok tt
validate_op Op.whoami r = ok tt
validate_op (Op.unknown name) r = err (unknown_op name)

-- `Request.Validate`
unfoldable pub validate : Request → Result Invalid (Unit {0})
validate r = validate_op r.op r

-- `Principal`, an opaque string.
abbrev pub Principal : Type 0
Principal = Bytes

-- `Server`, without what never changes.
pub record Server : Type 0 where
  pub running : Bool
  pub owner : Principal
  pub cancel : Option ℕ
  pub tun : Option ℕ

pub data Refusal : Type 0 where
  build_mismatch : Build → Build → Refusal
  belongs_to_another : Refusal
  already_running : Refusal
  not_running : Refusal

-- What stands between the first `Lock` and `Unlock` of `start`, with the check before it: the
-- tunnel's context is `ctx`.
unfoldable pub claim : Build → ℕ → Principal → Request → Server → Result Refusal Server
claim build ctx who req s = do
  fail_if (not (build_matches build req.build)) (build_mismatch build req.build)
  fail_if (s.running && not (bytes_eq s.owner who)) belongs_to_another
  fail_if s.running already_running
  ok (record s { running = true; owner = who; cancel = some ctx })

-- `s.tun = t`, when `Open` has succeeded.
unfoldable pub opened : ℕ → Server → Server
opened t s = record s { tun = some t }

-- `clear`
unfoldable pub clear : Server → Server
clear s = record s { running = false; cancel = none; tun = none }

-- `stop`: the context that it cancels, if any.
unfoldable pub stop_tunnel : Principal → Server → Option ℕ
stop_tunnel who s =
    if not s.running then none else if not (bytes_eq s.owner who) then none else s.cancel

abbrev pub tunnel_of : Option ℕ → Result Refusal ℕ
tunnel_of none = err not_running
tunnel_of (some t) = ok t

-- `refresh` takes the lock twice: the check comes first, and the tunnel that gets the token is
-- read later, when other steps may have come between.
unfoldable pub refresh_check : Principal → Server → Result Refusal (Unit {0})
refresh_check who s = do
  fail_if (not s.running) not_running
  fail_if (not (bytes_eq s.owner who)) belongs_to_another

unfoldable pub refresh_target : Server → Result Refusal ℕ
refresh_target s = tunnel_of s.tun

-- A tunnel between the claim that `start` makes and the `clear` that ends it.
pub record Session : Type 0 where
  pub ctx : ℕ
  pub owner : Principal

-- The server, the sessions that no `clear` has ended yet, and the contexts that are cancelled.
pub record World : Type 0 where
  pub server : Server
  pub live : List Session
  pub cancelled : List ℕ

abbrev pub idle : World
idle = record {
  server = record { running = false; owner = []; cancel = none; tun = none };
  live = [];
  cancelled = [];
}

-- The steps of all connections and tunnels, in whatever order they take the lock.
pub data Step (build : Build) : World → World → Type 0 where
  claims :
      (who : Principal) (req : Request) (ctx : ℕ) {w : World} {s : Server}
      → claim build ctx who req w.server ≡ ok s
      → Step build w (record w { server = s; live = record { ctx = ctx; owner = who } ∷ w.live })
  opens :
      (xs ys : List Session) (x : Session) {w : World}
      → w.live ≡ xs ++ (x ∷ ys)
      → Step build w (record w { server = opened x.ctx w.server })
  ends :
      (xs ys : List Session) (x : Session) {w : World}
      → w.live ≡ xs ++ (x ∷ ys)
      → Step build w
          (record { server = clear w.server; live = xs ++ ys; cancelled = x.ctx ∷ w.cancelled })
  stops :
      (who : Principal) (ctx : ℕ) {w : World}
      → stop_tunnel who w.server ≡ some ctx
      → Step build w (record w { cancelled = ctx ∷ w.cancelled })

pub data Reachable (build : Build) : World → Type 0 where
  at_start : Reachable build idle
  after : {w w' : World} → Reachable build w → Step build w w' → Reachable build w'
