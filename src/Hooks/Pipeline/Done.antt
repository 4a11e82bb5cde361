-- ===== src/Hooks/Pipeline/Done.antt =====
-- Run of pkg/hooks/pipeline.go: whether its response says that the request is done.
use wundergraph.Prelude.{
  ◌≡◌, refl, Bool, true, false, Option, none, some, [], Bytes, if◌then◌else◌, inl, inr,
}
use wundergraph.Hooks.Client.Monad.{Result, ok, err, ◌>>=◌, pure, continue}
use wundergraph.Hooks.Client.{World, HookError, Env}
use wundergraph.Hooks.Pipeline.{Pipeline, Response, run_pre_resolve, run_post_resolve}
use wundergraph.Hooks.Pipeline.Operation.{
  Resolution, RunError, wrap, pre_resolve_failed, post_resolve_failed, resolve_step,
  after_transform, after_resolve, after_pre_resolve, transformed, run,
}
use wundergraph.Hooks.Pipeline.Run.{stages_not_done}

-- A result that is no response, or one that is not done.
abbrev pub NotDone : Result RunError Response → Type 0
NotDone (ok resp) = resp.done ≡ false
NotDone (err e) = Unit

module _ (env : Env) (p : Pipeline) where
  after_transform-NotDone : (o : Option Bytes) (s : World) → NotDone (after_transform env p o s).0
  unfolding after_transform wrap ◌>>=◌
  after_transform-NotDone none s = tt
  after_transform-NotDone (some response) s =
      go (run_post_resolve env p response s).0 (run_post_resolve env p response s).1 refl
    where
      go :
          (r : Result HookError Response) (s' : World)
          → (run_post_resolve env p response s).0 ≡ r
          → NotDone
              (continue
                (elim r [ ok resp ↦ ok resp | err e ↦ err (post_resolve_failed e) ])
                (λ (resp : Response).
                  if resp.done
                  then pure resp
                  else pure (record { done = false; resolved = false; data' = resp.data' }))
                s').0
      go (ok resp) s' e = rw (stages_not_done env p s response resp (inr e)) refl
      go (err x) s' e = tt

  after_resolve-NotDone :
      (transformer : Option (Bytes → Option Bytes)) (b : Bool) (s : World)
      → NotDone (after_resolve env p transformer (b, s)).0
  unfolding after_resolve
  after_resolve-NotDone transformer true s = tt
  after_resolve-NotDone transformer false s =
      after_transform-NotDone (transformed transformer s.buf) s

  -- A run of a synchronous operation never returns a response that is done.
  pub run-NotDone :
      (resolve : Bytes → Resolution) (transformer : Option (Bytes → Option Bytes)) (s : World)
      → NotDone (run env p resolve transformer s).0
  unfolding run wrap ◌>>=◌ after_pre_resolve
  run-NotDone resolve transformer s =
      go (run_pre_resolve env p s).0 (run_pre_resolve env p s).1 refl
    where
      go :
          (r : Result HookError Response) (s' : World)
          → (run_pre_resolve env p s).0 ≡ r
          → NotDone
              (continue
                (elim r [ ok resp ↦ ok resp | err e ↦ err (pre_resolve_failed e) ])
                (after_pre_resolve env p resolve transformer)
                s').0
      go (ok pre) s' e = rw (stages_not_done env p s [] pre (inl e)) (
          after_resolve-NotDone transformer (resolve_step resolve pre s').0
            (resolve_step resolve pre s').1)
      go (err x) s' e = tt
