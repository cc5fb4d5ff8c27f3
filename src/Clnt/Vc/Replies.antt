-- ===== src/Clnt/Vc/Replies.antt =====
-- Replies on a connection, as records.
use oncrpc4_win.Common.{ℕ, ◌≤◌, ◌<◌, ◌≡◌, ◌≢◌, Option, some, List, [], ◌∷◌, ◌++◌, length}
use oncrpc4_win.Common.Words.{IsU32}
use oncrpc4_win.Xdr.RecIn.Fragments.{Frags}
use oncrpc4_win.Rpc.Reply.Message.{Verdict}
use oncrpc4_win.Rpc.Reply.Layout.{reply_bytes, IsReply}

-- A reply on the wire: its transaction id, its verdict, and what follows in its record, such as the
-- results of a call that was carried out.
pub record Reply : Type 0 where
  pub xid : ℕ
  pub verdict : Verdict Unit
  pub rest : List ℕ

-- Without the results, which stand in the rest.
abbrev pub nothing : Unit {0} → List ℕ
nothing v = []

abbrev pub reply_record : Reply → List ℕ
reply_record r = reply_bytes nothing r.xid r.verdict ++ r.rest

pub record IsReplied (r : Reply) : Type 0 where
  pub xid_fits : IsU32 r.xid
  pub verdict_fits : IsReply (λ v. Unit) r.verdict

-- The stream carries these records, and `more` behind them.
abbrev pub Carries : List ℕ → List (List ℕ) → List ℕ → Type 0
Carries stream [] more = stream ≡ more
Carries stream (r ∷ rs) more = (rest : List ℕ) × Frags stream r rest × Carries rest rs more

-- Replies to other calls.
abbrev pub AreStale : ℕ → List Reply → Type 0
AreStale x_id [] = Unit
AreStale x_id (r ∷ rs) = (r.xid ≢ x_id) × IsReplied r × AreStale x_id rs

-- A verifier that comes with a reply finds memory.
abbrev pub HasMemory : (ℕ → Option (List ℕ)) → Type 0
HasMemory mem_alloc =
    (n : ℕ)
    → 0 < n
    → n ≤ 400
    → (buffer : List ℕ) × (mem_alloc n ≡ some buffer) × (length buffer ≡ n)
