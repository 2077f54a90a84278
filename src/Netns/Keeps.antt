-- ===== src/Netns/Keeps.antt =====
-- The thread's network namespace. `netns.Set` is the one call that moves the thread; whatever
-- happens inside a pod's namespace, leaving it brings the thread back to where it was.
use natra.Base.{ℕ, ◌≡◌, arith, ◌&&◌, Option, none, [], ◌∷◌, Text}
use natra.Base.Result.{Result, ok, err}
use natra.Kernel.{
  Errno, Call, netns_get, netns_open, netns_set, netns_close, link_by_name, veth_peer_index,
  link_by_index, qdisc_list, qdisc_replace_fq, Trace, Env, Fault, pure, bind_result, ◌>>=◌, ◌>>◌,
  or_cleanup, invoke, discard, finally,
}
use natra.Kernel.Rules.{
  Keeps, Stable, pure-Keeps, throw-Keeps, bind-Keeps, then-Keeps, if-Keeps, or_cleanup-Keeps,
  finally-Keeps, ask-Keeps, invoke-Keeps, discard-Keeps,
}
use natra.Netns.{
  Netns, is_success, enter_netns, restore, install_fq, peer_index, hostside_peer_if_index,
}

-- The namespace of the thread after a call: `netns.Set` moves it if it succeeds.
abbrev pub moved : Call → Option Errno → ℕ → ℕ
moved (netns_set n) none here = n
moved _ _ here = here

-- The namespace of the thread, which started in `home`. A namespace goes by the handle that
-- `netns.Get` gives for it.
abbrev pub thread_ns : ℕ → Trace → ℕ
thread_ns home [] = home
thread_ns home (e ∷ t) = moved e.call e.reply.error (thread_ns home t)

-- What the restore relies on: `netns.Get` names the namespace that the thread is in, and the thread
-- may always return to the one that it started in.
pub record NetnsWorks (env : Env) (home : ℕ) : Type 0 where
  pub get_names : (t : Trace) → (env t netns_get).number ≡ thread_ns home t
  pub set_home : (t : Trace) → (env t (netns_set home)).error ≡ none

-- The thread is in the namespace that it started in.
abbrev pub AtHome : ℕ → Trace → Type 0
AtHome home t = thread_ns home t ≡ home

module _ (env : Env) (home : ℕ) (W : NetnsWorks env home) where
  -- Leaving brings the thread home, wherever it is.
  pub restore-home : (n : Netns) (t : Trace) → n.origin ≡ home → AtHome home (restore env n t).1
  unfolding restore ◌>>◌ discard
  restore-home n t e = rw (e, W.set_home t)

  -- What entering leaves: an error with the thread at home, or a namespace whose origin is home.
  abbrev pub Entered : Result Fault Netns × Trace → Type 0
  Entered (ok n, t) = n.origin ≡ home
  Entered (err e, t) = AtHome home t

  pub enter_netns-Entered :
      (path : Text) (t : Trace) → AtHome home t → Entered (enter_netns env path t)
  unfolding enter_netns ◌>>=◌ invoke or_cleanup discard ◌>>◌ pure
  enter_netns-Entered path t h = ground (arith, W.get_names t)

  -- The host-side lookup returns home on every path.
  pub hostside_peer-home :
      (path if_name : Text) (t : Trace)
      → AtHome home t
      → AtHome home (hostside_peer_if_index env path if_name t).1
  unfolding hostside_peer_if_index ◌>>=◌ finally
  hostside_peer-home path if_name t h = go (enter_netns env path t) (enter_netns-Entered path t h)
    where
      go :
          (r : Result Fault Netns × Trace)
          → Entered r
          → AtHome home (bind_result r (λ n. finally (peer_index env if_name) (restore env n))).1
      go (ok n, t') e = restore-home n (peer_index env if_name t').1 e
      go (err e, t') h' = h'

-- The calls of this file, for properties that no move of the thread touches.
pub record StableMoves (I : Trace → Type 0) (env : Env) : Type 0 where
  pub get : Stable I env netns_get
  pub open_path : (p : Text) → Stable I env (netns_open p)
  pub move : (n : ℕ) → Stable I env (netns_set n)
  pub close_handle : (n : ℕ) → Stable I env (netns_close n)
  pub by_name : (s : Text) → Stable I env (link_by_name s)
  pub peer : (s : Text) → Stable I env (veth_peer_index s)

module _ {I : Trace → Type 0} (env : Env) (S : StableMoves I env) where
  pub restore-Keeps : (n : Netns) → Keeps I (restore env n)
  unfolding restore
  restore-Keeps n =
      then-Keeps (discard-Keeps (S.move _))
        (then-Keeps (discard-Keeps (S.close_handle _)) (discard-Keeps (S.close_handle _)))

  pub enter_netns-Keeps : (path : Text) → Keeps I (enter_netns env path)
  unfolding enter_netns
  enter_netns-Keeps path = bind-Keeps (invoke-Keeps S.get) (λ origin.
      bind-Keeps
        (or_cleanup-Keeps (invoke-Keeps (S.open_path path)) (discard-Keeps (S.close_handle _)))
        (λ target.
          then-Keeps
            (or_cleanup-Keeps (invoke-Keeps (S.move _))
              (then-Keeps (discard-Keeps (S.close_handle _)) (discard-Keeps (S.close_handle _))))
            (pure-Keeps _)))

  pub peer_index-Keeps : (if_name : Text) → Keeps I (peer_index env if_name)
  unfolding peer_index
  peer_index-Keeps if_name = bind-Keeps (invoke-Keeps (S.by_name if_name)) (λ link.
      if-Keeps link.flag (bind-Keeps (invoke-Keeps (S.peer if_name)) (λ peer. pure-Keeps _))
        (throw-Keeps _))

  pub hostside_peer-Keeps :
      (path if_name : Text) → Keeps I (hostside_peer_if_index env path if_name)
  unfolding hostside_peer_if_index
  hostside_peer-Keeps path if_name =
      bind-Keeps (enter_netns-Keeps path)
        (λ n. finally-Keeps (peer_index-Keeps if_name) (restore-Keeps n))

-- The fq probe stays in the namespace that it is called in.
pub install_fq-Keeps :
    {I : Trace → Type 0} (env : Env) (i : ℕ)
    → Stable I env (link_by_index i)
    → Stable I env (qdisc_list i)
    → Stable I env (qdisc_replace_fq i)
    → Keeps I (install_fq env i)
unfolding install_fq
install_fq-Keeps env i index list replace = then-Keeps (invoke-Keeps index) (
    bind-Keeps (ask-Keeps list) (λ existing.
      if-Keeps (is_success existing.error && existing.flag) (pure-Keeps tt)
        (then-Keeps (invoke-Keeps replace) (pure-Keeps tt))))
