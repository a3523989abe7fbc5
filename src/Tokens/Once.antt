-- ===== src/Tokens/Once.antt =====
-- `processTokenPurchase`: a purchase that has been completed is not paid again.
use fos_mono.Tokens.Tables.{Purchase}
