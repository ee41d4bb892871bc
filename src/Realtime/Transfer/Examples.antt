-- ===== src/Realtime/Transfer/Examples.antt =====
-- One configuration, and the tests of isales_engine/transfer/manager.py at it. JSON numbers are
-- natural numbers here.
use isales_engine.Realtime.Transfer.{
  Numbers, Loaded, no_object, Message, TransferConfig, intent_asked, first_keyword,
}
use isales_engine.Prelude.{
  leb, if◌then◌else◌, replicate, nat_eq, text_eq, ◌==◌, Text, text, ℕ, ◌≡◌, refl, true, Option,
  none, some, List, [], ◌∷◌,
}

abbrev naturals : Numbers
naturals = record {
  Number = ℕ;
  at_least = λ a b. leb b a;
  of_bool = λ b. if b then 1 else 0;
  is_zero = λ n. n == 0;
  two_decimals = λ n. text "1.00";
}

abbrev lists_only : Text → Loaded ℕ
lists_only content = no_object

abbrev says_list : List Message → Option Text
says_list messages = some (text "[]")

abbrev digits : ℕ → Text
digits n = replicate n 49

abbrev config : TransferConfig ℕ
config = record {
  keyword_enabled = true;
  keywords = text "" ∷ text "人工" ∷ [];
  intent_enabled = true;
  intent_threshold = some 1;
  intent_system_prompt = text "intent";
  round_enabled = true;
  round_threshold = some 8;
  llm_enabled = true;
  llm_system_prompt = text "llm";
  phrases = text "正在转接" ∷ [];
}

abbrev wish : Text
wish = text "我要转人工"

abbrev small_talk : Text
small_talk = text "你好"

unspoken : first_keyword small_talk config.keywords ≡ none
unfolding first_keyword
unspoken = refl

asked : intent_asked naturals lists_only says_list 0 small_talk config ≡ some 1
unfolding intent_asked
asked = refl
