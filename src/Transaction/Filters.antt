-- ===== src/Transaction/Filters.antt =====
-- The filters of the list of transactions (src/transaction.rs).
use paratro_sdk_rust.Base.{◌≡◌, refl, ◌∙◌}
use paratro_sdk_rust.Base.Str.{codes, ◌=ₛ◌}
use paratro_sdk_rust.Query.{shown}
use paratro_sdk_rust.Query.Lookup.{lookup, lookup-push_text, lookup-push_text_other}
use paratro_sdk_rust.Transaction.{ListTransactionsRequest}
use paratro_sdk_rust.Transaction.Endpoints.{query}

-- Each filter is sent under its name exactly if it is set, the numbers as decimal text; no filter
-- hides another.
pub query-lookup :
    (r : ListTransactionsRequest)
    → (lookup (codes "wallet_id") (query r) ≡ r.wallet_id)
      × (lookup (codes "account_id") (query r) ≡ r.account_id)
      × (lookup (codes "chain") (query r) ≡ r.chain)
      × (lookup (codes "page") (query r) ≡ shown r.page)
      × (lookup (codes "page_size") (query r) ≡ shown r.page_size)
unfolding query ◌=ₛ◌
query-lookup r = (
  lookup-push_text_other (codes "wallet_id") (codes "page_size") (shown r.page_size) _ refl
      ∙ lookup-push_text_other (codes "wallet_id") (codes "page") (shown r.page) _ refl
      ∙ lookup-push_text_other (codes "wallet_id") (codes "chain") r.chain _ refl
      ∙ lookup-push_text_other (codes "wallet_id") (codes "account_id") r.account_id _ refl
      ∙ lookup-push_text (codes "wallet_id") r.wallet_id _ refl,
  lookup-push_text_other (codes "account_id") (codes "page_size") (shown r.page_size) _ refl
      ∙ lookup-push_text_other (codes "account_id") (codes "page") (shown r.page) _ refl
      ∙ lookup-push_text_other (codes "account_id") (codes "chain") r.chain _ refl
      ∙ lookup-push_text (codes "account_id") r.account_id _
          (lookup-push_text_other (codes "account_id") (codes "wallet_id") r.wallet_id _ refl),
  lookup-push_text_other (codes "chain") (codes "page_size") (shown r.page_size) _ refl
      ∙ lookup-push_text_other (codes "chain") (codes "page") (shown r.page) _ refl
      ∙ lookup-push_text (codes "chain") r.chain _ (
          lookup-push_text_other (codes "chain") (codes "account_id") r.account_id _ refl
          ∙ lookup-push_text_other (codes "chain") (codes "wallet_id") r.wallet_id _ refl),
  lookup-push_text_other (codes "page") (codes "page_size") (shown r.page_size) _ refl
      ∙ lookup-push_text (codes "page") (shown r.page) _ (
          lookup-push_text_other (codes "page") (codes "chain") r.chain _ refl
          ∙ lookup-push_text_other (codes "page") (codes "account_id") r.account_id _ refl
          ∙ lookup-push_text_other (codes "page") (codes "wallet_id") r.wallet_id _ refl),
  lookup-push_text (codes "page_size") (shown r.page_size) _ (
      lookup-push_text_other (codes "page_size") (codes "page") (shown r.page) _ refl
      ∙ lookup-push_text_other (codes "page_size") (codes "chain") r.chain _ refl
      ∙ lookup-push_text_other (codes "page_size") (codes "account_id") r.account_id _ refl
      ∙ lookup-push_text_other (codes "page_size") (codes "wallet_id") r.wallet_id _ refl),
)
