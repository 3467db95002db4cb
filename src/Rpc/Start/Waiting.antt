-- ===== src/Rpc/Start/Waiting.antt =====
-- pkg/disk/rpcserver/server.go: the server that does not block, with its wait group.
use zenlayer_cloud_csi_drive.Prelude.{
  ℕ, suc, ◌≤◌, ◌≡◌, Bool, false, Option, none, some, arith, ◌==◌,
}

-- The gRPC server that serve has made, while it takes calls or after a stop.
pub data GrpcServer : Type 0 where
  taking_calls : GrpcServer
  is_stopped : GrpcServer

pub record NonBlockingGrpcServer : Type 0 where
  pub wg : ℕ
  pub server : Option GrpcServer

abbrev pub new_non_blocking_grpc_server : NonBlockingGrpcServer
new_non_blocking_grpc_server = record { wg = 0; server = none }

-- Start adds one to the wait group; the goroutine that it begins makes the server later.
unfoldable pub start : NonBlockingGrpcServer → NonBlockingGrpcServer
start s = record s { wg = suc s.wg }

-- Wait returns when the counter of the wait group is zero.
unfoldable pub wait_returns : NonBlockingGrpcServer → Bool
wait_returns s = s.wg == 0

-- GracefulStop and Stop; `none` is the panic for a server that is not made yet.
unfoldable pub stop : NonBlockingGrpcServer → Option NonBlockingGrpcServer
stop s = elim s.server [ none ↦ none | some g ↦ some (record s { server = some is_stopped }) ]

-- What happens to a server: it is started, serve makes the gRPC server, the process stops it, and
-- serve comes to an end, which leaves the wait group as it is.
pub data Step : NonBlockingGrpcServer → NonBlockingGrpcServer → Type 0 where
  started : (s : NonBlockingGrpcServer) → Step s (start s)
  made : (s : NonBlockingGrpcServer) → Step s (record s { server = some taking_calls })
  stopped : (s t : NonBlockingGrpcServer) → stop s ≡ some t → Step s t
  ended : (s : NonBlockingGrpcServer) → Step s s

pub data Reach (s : NonBlockingGrpcServer) : NonBlockingGrpcServer → Type 0 where
  here : Reach s s
  next : {t u : NonBlockingGrpcServer} → Reach s t → Step t u → Reach s u

Step-wg : {s t : NonBlockingGrpcServer} → Step s t → s.wg ≤ t.wg
unfolding start stop
Step-wg (started s) = omega arith
Step-wg (made s) = omega arith
Step-wg (stopped s t e) = ground (arith, e)
Step-wg (ended s) = omega arith

Reach-wg : {s t : NonBlockingGrpcServer} → Reach s t → s.wg ≤ t.wg
Reach-wg here = omega arith
Reach-wg (next r st) = omega (arith, Reach-wg r, Step-wg st)

-- Once a server is started, Wait does not return, whatever happens: also not after serve has ended.
wait_never_returns : (s t : NonBlockingGrpcServer) → Reach (start s) t → wait_returns t ≡ false
unfolding start wait_returns
wait_never_returns s t r = ground (arith, Reach-wg r)
