-- ===== src/Multi/Queue.antt =====
-- The loop of `execCommand` over the queued commands, against a description of its steps.
use my_node_redis.Prelude.{
  ℕ, ◌≡◌, Bool, true, false, not, ◌&&◌, ◌||◌, if◌then◌else◌, List, [], ◌∷◌, refl,
}
use my_node_redis.Prelude.Equality.{Eq}
use my_node_redis.Multi.{Server, Calls, say, propagate_multi, exec_loop, propagate_first}

module _ {K C D : Type 0} ⦃e : Eq K⦄ where
  -- The commands of a queue, each run by `call` where the one before has ended; the flag tells whether
  -- one that writes has been run, and MULTI is sent to the replicas before the first of these.
  pub data RunsQueue (ops : Calls K C D) (c : ℕ)
      : Bool → List C → Server K C D → Server K C D → Type 0 where
    queue_done : {wrote : Bool} {s : Server K C D} → RunsQueue ops c wrote [] s s
    queue_read :
        {wrote : Bool} {cmd : C} {l : List C} {s t : Server K C D}
        → ops.readonly cmd ≡ true
        → RunsQueue ops c wrote l (ops.call c cmd s) t
        → RunsQueue ops c wrote (cmd ∷ l) s t
    queue_first_write :
        {cmd : C} {l : List C} {s t : Server K C D}
        → ops.readonly cmd ≡ false
        → RunsQueue ops c true l (ops.call c cmd (say s (propagate_multi (s.clients c).db))) t
        → RunsQueue ops c false (cmd ∷ l) s t
    queue_write :
        {cmd : C} {l : List C} {s t : Server K C D}
        → ops.readonly cmd ≡ false
        → RunsQueue ops c true l (ops.call c cmd s) t
        → RunsQueue ops c true (cmd ∷ l) s t

  one_command-RunsQueue :
      (ops : Calls K C D) (c : ℕ) (cmd : C) (l : List C) (must readonly : Bool) (s t : Server K C D)
      → ops.readonly cmd ≡ readonly
      → RunsQueue ops c
          (must || not readonly)
          l
          (ops.call c cmd
            (if not must && not readonly then say s (propagate_multi (s.clients c).db) else s))
          t
      → RunsQueue ops c must (cmd ∷ l) s t
  one_command-RunsQueue ops c cmd l false false s t e r = queue_first_write e r
  one_command-RunsQueue ops c cmd l false true s t e r = queue_read e r
  one_command-RunsQueue ops c cmd l true false s t e r = queue_write e r
  one_command-RunsQueue ops c cmd l true true s t e r = queue_read e r

  pub exec_loop-RunsQueue :
      (ops : Calls K C D) (c : ℕ) (l : List C) (must : Bool) (s : Server K C D)
      → RunsQueue ops c must l s (exec_loop ops c l must s).0
  unfolding exec_loop
  exec_loop-RunsQueue ops c [] must s = queue_done
  exec_loop-RunsQueue ops c (cmd ∷ l) must s =
      one_command-RunsQueue ops c cmd l must (ops.readonly cmd) s _ refl (
        exec_loop-RunsQueue ops c l (must || not (ops.readonly cmd))
          (ops.call c cmd (propagate_first ops c cmd must s)))
