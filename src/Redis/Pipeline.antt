-- ===== src/Redis/Pipeline.antt =====
-- `Pipeline` of common/cpp/redis/redis_client.cpp: commands are appended to the client's context, and their
-- replies are read together. The context is the client's own, so it is passed along.
pub mod Strings
pub mod Hashes
pub mod Lists
pub mod Sets
pub mod SortedSets
pub mod Keys
pub mod Others
use gmaker.Common.{
  ℕ, zero, suc, ◌+◌, Bool, ◌||◌, not, none, some, List, [], ◌∷◌, ◌==◌, if◌then◌else◌,
}
use gmaker.Redis.Reply.{Text, word, Reply, parse_reply, null_reply}
use gmaker.Redis.Client.{Hiredis}

-- `ctx_ != nullptr`, `count_` and `last_error_`.
pub record Pipeline : Type 0 where
  pub attached : Bool
  pub count : ℕ
  pub last_error : Text

-- `NewPipeline`, with whether the client has a context.
unfoldable pub new_pipeline : Bool → Pipeline
new_pipeline has_ctx = record { attached = has_ctx; count = 0; last_error = [] }

module _ {C : Type 0} (h : Hiredis C) where
  -- `AppendCommand` and `AppendCommandArgv`, with the arguments that hiredis makes of the format.
  unfoldable pub append_command : C → Pipeline → List Text → C × Pipeline
  append_command c p args =
      let (c', ok) = h.append_args c args in
      if not p.attached
      then (c, record p { last_error = word "null context" })
      else if not ok
      then (c', record p { last_error = h.errstr c' })
      else (c', record p { count = p.count + 1 })

  -- The loop of `Exec`: the replies, and the error of the last one that could not be read.
  unfoldable pub read_replies : ℕ → C → Text → C × Text × List Reply
  read_replies zero c e = (c, e, [])
  read_replies (suc n) c e =
      let (c', answer) = h.get_reply c in
      let read : Text × Reply = elim answer [
        | none ↦ (h.errstr c', null_reply)
        | some raw ↦ (e, parse_reply raw)
      ] in
      let (e', r) = read in let (c'', e'', rest) = read_replies n c' e' in (c'', e'', r ∷ rest)

  -- `Exec`.
  unfoldable pub exec : C → Pipeline → C × Pipeline × List Reply
  exec c p =
      let (c', e, results) = read_replies p.count c p.last_error in
      if not p.attached || p.count == 0
      then (c, record p { last_error = word "empty pipeline" }, [])
      else (c', record p { count = 0; last_error = e }, results)

  -- The loop of `Clear`.
  unfoldable pub drop_replies : ℕ → C → C
  drop_replies zero c = c
  drop_replies (suc n) c = drop_replies n (h.get_reply c).0

  -- `Clear`.
  unfoldable pub clear : C → Pipeline → C × Pipeline
  clear c p =
      if not p.attached || p.count == 0
      then (c, p)
      else (drop_replies p.count c, record p { count = 0; last_error = [] })
