-- ===== src/Handle/Sends/Echo/Delivery.antt =====
-- What the client of a handle has got back in a run send by send.
