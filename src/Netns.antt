-- ===== src/Netns.antt =====
-- cmd/natra/netns_linux.go: entering a pod's network namespace and leaving it, the fq qdisc, and
-- the host-side peer of a pod's interface.
pub mod Keeps
use natra.Base.{ℕ, Bool, true, false, ◌&&◌, Option, none, some, if◌then◌else◌, Text}
use natra.Base.Result.{Result, ok, err}
use natra.Kernel.{
  Errno, Call, netns_get, netns_open, netns_set, netns_close, link_by_name, veth_peer_index,
  link_by_index, qdisc_list, qdisc_replace_fq, Reply, Env, Fault, not_veth, M, pure, throw, ◌>>=◌,
  ◌>>◌, or_cleanup, finally, ask, invoke, discard,
}

-- What the restore function closes over.
pub record Netns : Type 0 where
  pub origin : ℕ
  pub target : ℕ

unfoldable pub is_success : Option Errno → Bool
is_success none = true
is_success (some _) = false

module _ (env : Env) where
  unfoldable pub enter_netns : Text → M Netns
  enter_netns path = do
    origin ← invoke env netns_get
    target ← or_cleanup (invoke env (netns_open path)) (discard env (netns_close origin.number))
    or_cleanup (invoke env (netns_set target.number))
        (discard env (netns_close target.number) >> discard env (netns_close origin.number))
    pure (record { origin = origin.number; target = target.number })

  -- The function that `enterNetns` returns. It ignores errors.
  unfoldable pub restore : Netns → M (Unit {0})
  restore n = do
    discard env (netns_set n.origin)
    discard env (netns_close n.target)
    discard env (netns_close n.origin)

  unfoldable pub install_fq : ℕ → M (Unit {0})
  install_fq if_index = do
    invoke env (link_by_index if_index)
    existing ← ask env (qdisc_list if_index)
    if is_success existing.error && existing.flag
        then pure tt
        else (do invoke env (qdisc_replace_fq if_index); pure tt)

  -- `hostsidePeerIfIndex` inside the pod's namespace.
  unfoldable pub peer_index : Text → M ℕ
  peer_index if_name = do
    link ← invoke env (link_by_name if_name)
    if link.flag
        then (do peer ← invoke env (veth_peer_index if_name); pure peer.number)
        else throw not_veth

  unfoldable pub hostside_peer_if_index : Text → Text → M ℕ
  hostside_peer_if_index path if_name = do
    n ← enter_netns path
    finally (peer_index if_name) (restore n)
