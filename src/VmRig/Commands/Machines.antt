-- ===== src/VmRig/Commands/Machines.antt =====
-- Which lima VMs exist after the calls of a trace, and that the rig leaves none.
use natra.Base.{
  subst, ◌≡◌, refl, sym, ◌∙◌, Bool, true, false, Option, none, some, [], ◌∷◌, if◌then◌else◌, Text,
  text_eq, text_eq_refl, arith,
}
use natra.Base.Result.{Result, ok, err}
use natra.Base.State.{bind_result, pure, catch, finally, ◌>>=◌, ◌>>◌}
use natra.Host.{
  Host, HostEnv, HostTrace, HostCall, HostReply, HostEvent, HostFault, lima_create, lima_delete,
  lima_list, lima_stop, run, capture, remove, trim_right, host_outcome, ask, must, ignore, captured,
  for_all,
}
use natra.Rig.Executor.{Readings}
use natra.VmRig.{Config, is_listed, lima_exists, delete_vm, down_vm, cmd_down}
use natra.VmRig.Asserts.{Limits}
use natra.VmRig.Commands.{up_to_test, cmd_all}

-- The VM that a command makes, and the one that it deletes.
abbrev pub made : HostCall → Option Text
made (run (lima_create name template)) = some name
made _ = none

abbrev pub deleted : HostCall → Option Text
deleted (run (lima_delete name)) = some name
deleted _ = none

abbrev pub names : Text → Option Text → Bool
names vm none = false
names vm (some name) = text_eq vm name

abbrev pub after_event : HostEvent → (Text → Bool) → Text → Bool
after_event event exist vm =
    if event.reply.failed
    then exist vm
    else if names vm (deleted event.call)
    then false
    else if names vm (made event.call)
    then true
    else exist vm

-- Whether a VM exists after a trace, from those that exist at first.
unfoldable pub vm_exists : (Text → Bool) → HostTrace → Text → Bool
vm_exists first [] vm = first vm
vm_exists first (event ∷ t) vm = after_event event (vm_exists first t) vm

-- What the rig relies on of limactl for one of its VMs: the list names the VM exactly if it exists, and
-- deleting it works if it exists.
pub record LimaWorks (env : HostEnv) (first : Text → Bool) (vm : Text) : Type 0 where
  pub lists :
      (t : HostTrace)
      → vm_exists first t vm ≡ true
      → ((env t (capture (lima_list vm))).failed ≡ false)
        × (trim_right (env t (capture (lima_list vm))).output ≡ vm)
  pub lists_no_other :
      (t : HostTrace)
      → vm_exists first t vm ≡ false
      → text_eq (trim_right (env t (capture (lima_list vm))).output) vm ≡ false
  pub deletes :
      (t : HostTrace) → vm_exists first t vm ≡ true → (env t (run (lima_delete vm))).failed ≡ false

module _ (env : HostEnv) (first : Text → Bool) where
  abbrev Gone : Text → HostTrace → Type 0
  Gone vm t = vm_exists first t vm ≡ false

  -- No VM comes into being.
  abbrev Shrinks : HostTrace → HostTrace → Type 0
  Shrinks t t' = (vm : Text) → Gone vm t → Gone vm t'

  abbrev listed : Text → HostTrace → HostTrace
  listed vm t = record { call = capture (lima_list vm); reply = env t (capture (lima_list vm)) } ∷ t

  abbrev stopped : Text → HostTrace → HostTrace
  stopped vm t = record { call = run (lima_stop vm); reply = env t (run (lima_stop vm)) } ∷ t

  -- Calls that neither make nor delete a VM.
  other_exists :
      (c : HostCall) (r : HostReply) (t : HostTrace) (vm : Text)
      → made c ≡ none
      → deleted c ≡ none
      → vm_exists first (record { call = c; reply = r } ∷ t) vm ≡ vm_exists first t vm
  unfolding vm_exists
  other_exists c r t vm m d = rw (m, d) (ground arith)

  -- The outcome of a list command that was answered.
  abbrev captured_list : Text → HostReply → Bool → HostTrace → Result HostFault Text × HostTrace
  captured_list vm r failed t =
      bind_result (host_outcome (capture (lima_list vm)) r failed, t)
        (λ x. pure (trim_right x.output))

  is_listed-exists :
      (vm : Text) (r : HostReply) (t : HostTrace) (failed exists : Bool)
      → (exists ≡ true → (failed ≡ false) × (trim_right r.output ≡ vm))
      → (exists ≡ false → text_eq (trim_right r.output) vm ≡ false)
      → is_listed env vm (captured_list vm r failed t).0 ≡ exists
  unfolding bind_result pure is_listed
  is_listed-exists vm r t true true h h' = let clash : true ≡ false = (h refl).0 in absurd cc
  is_listed-exists vm r t true false h h' = refl
  is_listed-exists vm r t false true h h' = rw ((h refl).1) (text_eq_refl vm)
  is_listed-exists vm r t false false h h' = h' refl

  captured_list-trace :
      (vm : Text) (r : HostReply) (t : HostTrace) (failed : Bool)
      → (captured_list vm r failed t).1 ≡ t
  unfolding bind_result pure
  captured_list-trace vm r t true = refl
  captured_list-trace vm r t false = refl

  lima_exists-exists :
      (vm : Text) (L : LimaWorks env first vm) (t : HostTrace)
      → lima_exists env vm t ≡ (ok (vm_exists first t vm), listed vm t)
  unfolding lima_exists captured catch ask bind_result pure ◌>>=◌
  lima_exists-exists vm L t = λ i.
      let r = env t (capture (lima_list vm)) in
      (
        ok (
            is_listed-exists vm r (listed vm t) r.failed (vm_exists first t vm) (L.lists t)
              (L.lists_no_other t) i),
        captured_list-trace vm r (listed vm t) r.failed i,
      )

  abbrev deleted_trace : Text → HostTrace → HostTrace
  deleted_trace vm t =
      record { call = run (lima_delete vm); reply = env t (run (lima_delete vm)) } ∷ t

  must-worked :
      (c : HostCall) (r : HostReply) (t : HostTrace) (failed : Bool)
      → failed ≡ false
      → bind_result (host_outcome c r failed, t) (λ _. pure tt) ≡ (ok tt, t)
  unfolding bind_result pure
  must-worked c r t true h = absurd cc
  must-worked c r t false h = refl

  -- What a step of `cmdDown` does to a VM and to the others.
  abbrev Removes : Text → HostTrace → Result HostFault (Unit {0}) × HostTrace → Type 0
  Removes vm t (r, t') = (r ≡ ok tt) × Gone vm t' × Shrinks t t'

  deleted-Removes :
      (vm : Text) (t : HostTrace) (reply : HostReply)
      → reply.failed ≡ false
      → Removes vm t (ok tt, record { call = run (lima_delete vm); reply = reply } ∷ t)
  unfolding vm_exists
  deleted-Removes vm t reply worked =
      (refl, rw (worked, text_eq_refl vm), λ other gone. rw worked (ground arith))

  delete_vm-exists :
      (vm : Text) (L : LimaWorks env first vm) (t : HostTrace)
      → vm_exists first t vm ≡ true
      → delete_vm env vm t ≡ (ok tt, deleted_trace vm (stopped vm t))
  unfolding delete_vm ignore must ask bind_result ◌>>=◌ ◌>>◌
  delete_vm-exists vm L t exists =
      let t' = stopped vm t in
      must-worked (run (lima_delete vm)) (env t' (run (lima_delete vm))) (deleted_trace vm t')
        (env t' (run (lima_delete vm))).failed
        (L.deletes t' (other_exists _ _ t vm refl refl ∙ exists))

  down_vm-cases :
      (vm : Text) (L : LimaWorks env first vm) (t : HostTrace) (b : Bool)
      → vm_exists first t vm ≡ b
      → Removes vm t ((if b then delete_vm env vm else pure tt) (listed vm t))
  unfolding pure
  down_vm-cases vm L t false absent = (
    refl,
    other_exists _ _ t vm refl refl ∙ absent,
    λ other gone. other_exists _ _ t other refl refl ∙ gone,
  )
  down_vm-cases vm L t true present =
      let t' = stopped vm (listed vm t) in
      let kept : (other : Text) → vm_exists first t' other ≡ vm_exists first t other = λ other.
        other_exists _ _ (listed vm t) other refl refl ∙ other_exists _ _ t other refl refl in
      let worked = L.deletes t' (kept vm ∙ present) in
      let (done, gone, shrinks) = deleted-Removes vm t' (env t' (run (lima_delete vm))) worked in
      subst (Removes vm t)
        (sym (delete_vm-exists vm L (listed vm t) (other_exists _ _ t vm refl refl ∙ present)))
        (done, gone, λ other h. shrinks other (kept other ∙ h))

  down_vm-Removes :
      (vm : Text) (L : LimaWorks env first vm) (t : HostTrace) → Removes vm t (down_vm env vm t)
  unfolding down_vm bind_result ◌>>=◌
  down_vm-Removes vm L t =
      let step : Bool → Host (Unit {0}) = λ b. if b then delete_vm env vm else pure tt in
      subst (Removes vm t) (λ i. bind_result (sym (lima_exists-exists vm L t) i) step)
        (down_vm-cases vm L t (vm_exists first t vm) refl)

  after_ok :
      (out : Result HostFault (Unit {0}) × HostTrace) (k : Host (Unit {0}))
      → out.0 ≡ ok tt
      → bind_result out (λ _. k) ≡ k out.1
  unfolding bind_result
  after_ok (ok a, t) k h = refl
  after_ok (err e, t) k h = absurd cc

  -- No VM of the rig exists.
  abbrev pub NoneLeft : Config → HostTrace → Type 0
  NoneLeft c t = Gone c.agent_name t × Gone c.server_name t

  pub cmd_down-NoneLeft :
      (c : Config) (LA : LimaWorks env first c.agent_name) (LS : LimaWorks env first c.server_name)
      (t : HostTrace)
      → ((cmd_down env c t).0 ≡ ok tt) × NoneLeft c (cmd_down env c t).1
  unfolding cmd_down for_all ignore pure ◌>>=◌ ◌>>◌
  cmd_down-NoneLeft c LA LS t =
      let first_down = down_vm-Removes c.agent_name LA t in
      let t1 = (down_vm env c.agent_name t).1 in
      let second_down = down_vm-Removes c.server_name LS t1 in
      let t2 = (down_vm env c.server_name t1).1 in
      let removal : Host (Unit {0}) = ignore env (remove c.kubeconfig_path) in
      let looped : for_all (c.agent_name ∷ c.server_name ∷ []) (down_vm env) t ≡ (ok tt, t2) =
        after_ok (down_vm env c.agent_name t) (for_all (c.server_name ∷ []) (down_vm env))
          first_down.0
        ∙ after_ok (down_vm env c.server_name t1) (for_all [] (down_vm env)) second_down.0 in
      subst (λ (out : Result HostFault (Unit {0}) × HostTrace). (out.0 ≡ ok tt) × NoneLeft c out.1)
        (sym (λ i. bind_result (looped i) (λ _. removal)))
        (
          refl,
          (
            other_exists _ _ t2 c.agent_name refl refl ∙ second_down.2 c.agent_name first_down.1,
            other_exists _ _ t2 c.server_name refl refl ∙ second_down.1,
          ),
        )

-- Where limactl lists the rig's VMs exactly if they exist and deletes them where they do: `all` without -keep leaves
-- neither VM of the rig, whatever was there before, whichever step fails and whatever all other calls return, and
-- its outcome is that of the steps.
pub cmd_all-NoneLeft :
    (env : HostEnv) (first : Text → Bool) (rd : Readings) (limits : Limits rd) (quote : Text → Text)
    (mode_ : Text) (darwin : Bool) (c : Config) (t : HostTrace)
    → LimaWorks env first c.agent_name
    → LimaWorks env first c.server_name
    → let out = cmd_all env rd limits quote mode_ darwin c false t in
      NoneLeft env first c out.1 × (out.0 ≡ (up_to_test env rd limits quote mode_ darwin c t).0)
unfolding cmd_all finally catch pure bind_result ◌>>=◌
cmd_all-NoneLeft env first rd limits quote mode_ darwin c t LA LS =
    let t' = (up_to_test env rd limits quote mode_ darwin c t).1 in
    ((cmd_down-NoneLeft env first c LA LS t').1, refl)
