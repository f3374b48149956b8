-- ===== src/CommunicateQt/Tests.antt =====
-- communicate_qt.cpp: the theorems at small inputs that meet their hypotheses.
use simplechatserver.Prelude.{◌≡◌, refl, inl, Bool, true, [], ◌∷◌, ◌++◌, arith, returns, codes}
use simplechatserver.CommunicateQt.{Text, Client, ended, handle_client, reply_to}
use simplechatserver.CommunicateQt.Answers.{reads_then, handle_client-answers}

abbrev all_valid : Text → Bool
all_valid text = true

abbrev client : Client
client = record { sent = []; closed = [] }

abbrev line : Text
line = codes "hello" ++ (b'\n' ∷ [])

handle_client-answers_example :
    handle_client all_valid 4 (reads_then (line ∷ codes "bye" ∷ []) ended) client
    ≡ returns tt
        (record { sent = reply_to (codes "hello") ∷ reply_to (codes "bye") ∷ []; closed = 4 ∷ [] })
handle_client-answers_example =
    handle_client-answers all_valid 4 (line ∷ codes "bye" ∷ []) ended client
      (omega arith, (omega arith, tt)) (inl refl)
