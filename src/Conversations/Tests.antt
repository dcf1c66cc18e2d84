-- ===== src/Conversations/Tests.antt =====
-- A conversation of concrete messages.
use i_mail.Base.{
  ℕ, ◌≡◌, refl, true, Bool, Option, none, some, List, [], ◌∷◌, arith, if◌then◌else◌, ◌==◌,
}
use i_mail.Base.Texts.{Text, codes, push_end, is_whitespace}
use i_mail.Base.Json.{Value, null}
use i_mail.Composition.Identifiers.{normalize_message_id}
use i_mail.Conversations.Union.{Parents, Link, Forest, root, link, link_all, join, separate}
use i_mail.Conversations.Forest.{IsRoot, IsFound, root-IsFound}
use i_mail.Conversations.Linked.{alone}
use i_mail.Conversations.United.{IsUnited, link_all-IsUnited}
use i_mail.Conversations.Related.{
  Message, related, ambiguous_ids, links_of, group_of, conflicts, id_of, is_ambiguous,
}
use i_mail.Conversations.Grouped.{IsAnswer, related-IsConversation}
use i_mail.Conversations.Isolated.{ambiguous_alone}

-- 0 below 1 below 2.
abbrev path : Parents
path i = if i == 0 then 1 else if i == 1 then 2 else i

path-IsRoot : IsRoot path 2 0 2
path-IsRoot = ((λ e. omega (arith, e)), ((λ e. omega (arith, e)), (refl, refl)))

root-IsFound_example : IsFound 2 path 0 2
root-IsFound_example = root-IsFound 2 2 path 0 2 path-IsRoot (omega arith)

abbrev links : List Link
links = (0, codes "a") ∷ (1, codes "b") ∷ (1, codes "a") ∷ (2, codes "c") ∷ []

link_all-IsUnited_example : (s : Forest) × ((link_all 4 links separate ≡ some s) × IsUnited links s)
link_all-IsUnited_example = link_all-IsUnited 4 links (omega arith)

abbrev mail : Text → Text → Text → List Text → Message
mail id header subject references = record {
  id = id;
  message_id = some header;
  headers = record {
    cc = [];
    reply_to = [];
    reply = record { in_reply_to = []; references = references };
  };
  from = null;
  to = null;
  subject = subject;
  date = codes "2026";
}

abbrev same_value : Value → Value → Bool
same_value a b = true

abbrev no_prints : Text → Option Text
no_prints id = none

abbrev messages : List Message
messages =
    mail (codes "1") (codes "<a@x>") (codes "s") []
    ∷ mail (codes "2") (codes "<b@x>") (codes "s") (codes "<a@x>" ∷ [])
    ∷ mail (codes "3") (codes "<c@x>") (codes "s") []
    ∷ []

related_runs :
    related same_value no_prints messages (codes "2")
    ≡ some (
        some (
          mail (codes "1") (codes "<a@x>") (codes "s") []
          ∷ mail (codes "2") (codes "<b@x>") (codes "s") (codes "<a@x>" ∷ [])
          ∷ []))
unfolding related ambiguous_ids links_of group_of link_all link join root normalize_message_id
    conflicts push_end is_whitespace
related_runs = refl

related-IsConversation_example : IsAnswer same_value no_prints messages (codes "2")
related-IsConversation_example = related-IsConversation same_value no_prints messages (codes "2")

-- Two messages of one identifier with different subjects.
abbrev doubles : List Message
doubles =
    mail (codes "1") (codes "<a@x>") (codes "s") []
    ∷ mail (codes "2") (codes "<a@x>") (codes "t") []
    ∷ []

doubles-ambiguous :
    is_ambiguous
      (ambiguous_ids same_value no_prints doubles)
      (id_of (mail (codes "1") (codes "<a@x>") (codes "s") []))
    ≡ true
unfolding ambiguous_ids normalize_message_id conflicts push_end is_whitespace
doubles-ambiguous = refl

ambiguous_alone_example : ◌≡◌ {A = ℕ} 0 0
ambiguous_alone_example =
    ambiguous_alone (ambiguous_ids same_value no_prints doubles) doubles 0 0
      (mail (codes "1") (codes "<a@x>") (codes "s") []) refl doubles-ambiguous alone
