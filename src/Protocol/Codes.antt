-- ===== src/Protocol/Codes.antt =====
-- common/include/Protocol.hpp: the error codes and their texts.
use sea_battle.Base.{ℕ, List, [], ◌∷◌, String, eqb, if◌then◌else◌}

-- `errorMessage`, for the codes that are not negative; the cases of the `switch` in their order.
abbrev pub error_texts : List (ℕ × String)
error_texts =
    (1001, "Недопустимый никнейм")
    ∷ (1002, "GUID не найден")
    ∷ (2001, "Игра не найдена")
    ∷ (2002, "Не ваш ход")
    ∷ (2003, "Невалидная расстановка кораблей")
    ∷ (2004, "Клетка уже атакована")
    ∷ (2005, "Время хода истекло")
    ∷ (2006, "Игрок отключился")
    ∷ (2007, "Наблюдение доступно только за друзьями")
    ∷ (3001, "Игрок не найден")
    ∷ (3002, "Игрок не в сети")
    ∷ (3003, "Игрок уже в игре")
    ∷ (4001, "Приглашение не найдено")
    ∷ (4002, "Приглашение истекло")
    ∷ (5001, "Друг уже добавлен")
    ∷ (5002, "Нельзя добавить себя в друзья")
    ∷ []

unfoldable pub text_in : List (ℕ × String) → ℕ → String
text_in [] code = "Неизвестная ошибка"
text_in ((c, text) ∷ rest) code = if eqb c code then text else text_in rest code

unfoldable pub error_message : ℕ → String
error_message code = text_in error_texts code
