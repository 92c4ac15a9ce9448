-- ===== src/Activity/Sku/Keys.antt =====
-- The key that a sku's stock is assembled under, and the one that it is taken from.
use lucky_market.Base.{
  String, false, none, some, [], ◌≡◌, ◌≢◌, refl, sym, ap, ◌∙◌, inl, inr, str_eq, eq_iff, Bool-cases,
}
use lucky_market.Base.Int.{ℤ}
use lucky_market.Base.Outcome.{err, parse_failed, ◌>>◌}
use lucky_market.Text.{concat, format_int, parse_int, digits, scan}
use lucky_market.Text.RoundTrip.{IsInt64, parse_int-format_int}
use lucky_market.Activity.Sku.{
  SkuStore, call, get_activity_sku_stock_count_key, assembled_stock_count_key,
  cache_activity_sku_stock_count, lua_subtract, read_reply, subtraction_activity_sku_stock,
}

concat-injective' : (s t u : String) → concat s t ≡ concat s u → t ≡ u
unfolding concat
concat-injective' String.[] t u e = e
concat-injective' (String.◌∷◌ c s) t u e = concat-injective' s t u (cc e)

keys_differ :
    (sku : ℤ) → IsInt64 sku → assembled_stock_count_key sku ≢ get_activity_sku_stock_count_key sku
unfolding assembled_stock_count_key get_activity_sku_stock_count_key concat
keys_differ sku h e =
    let text : format_int sku ≡ concat "key_" (format_int sku) =
      concat-injective' "activity_sku_stock_count_" (format_int sku)
        (concat "key_" (format_int sku)) e in
    let lost : some sku ≡ none =
      sym (parse_int-format_int sku h) ∙ ap parse_int text ∙ no_number (format_int sku) in
    cc
  where
    no_number : (t : String) → parse_int (concat "key_" t) ≡ none
    no_number t = unfold parse_int digits scan concat in refl

-- For an int64 sku without a stock under the key that is read: assembling its stock, as the code does,
-- leaves that key missing, so that a request still fails, since the reply of the script is no JSON.
pub assembled_stock_unread :
    (sku count activity_id : ℤ) (user_id : String) (now : ℤ) (s : SkuStore)
    → IsInt64 sku
    → s.stocks (get_activity_sku_stock_count_key sku) ≡ none
    → s.faults ≡ []
    → ((cache_activity_sku_stock_count (assembled_stock_count_key sku) count
          >> subtraction_activity_sku_stock sku activity_id user_id now)
        s).0
      ≡ err parse_failed
unfolding cache_activity_sku_stock_count subtraction_activity_sku_stock call lua_subtract read_reply
assembled_stock_unread sku count activity_id user_id now s int missing healthy =
    rw healthy (rw (other, missing) refl)
  where
    other : str_eq (assembled_stock_count_key sku) (get_activity_sku_stock_count_key sku) ≡ false
    other =
        elim (Bool-cases
          (str_eq (assembled_stock_count_key sku) (get_activity_sku_stock_count_key sku))) [
            | inl same ↦ absurd (keys_differ sku int ((eq_iff _ _).0 same))
            | inr apart ↦ apart
          ]
